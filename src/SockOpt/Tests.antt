-- ===== src/SockOpt/Tests.antt =====
-- The options of src/tb_sock_opt.c on a concrete system.
use fastuserprotocol.Common.{◌≡◌, ◌↔◌, ◌⊎◌, [], ◌∷◌, arith}
use fastuserprotocol.Common.Int.{pos, minus_one}
use fastuserprotocol.Protocol.{udt}
use fastuserprotocol.Os.Sample.{two_at_once}
use fastuserprotocol.SockOpt.{TbOptions, tb_set_bsd_sock_opts, tb_set_sock_opt, tb_set_udt_opts}
use fastuserprotocol.SockOpt.Laws.{
  IsCompleted, AllWrites, tb_set_sock_opt-IsCompleted, tb_set_bsd_sock_opts-rc,
  tb_set_udt_opts-ignores_send,
}
use fastuserprotocol.Listener.Sample.{no_options}

-- A receive size is given, the others are open.
abbrev receive_only : TbOptions
receive_only = record no_options { protocol = udt; l4_r_b_size = pos 77 }

tb_set_sock_opt-IsCompleted_example :
    IsCompleted receive_only (tb_set_sock_opt two_at_once receive_only (pos 3) []).options
tb_set_sock_opt-IsCompleted_example =
    tb_set_sock_opt-IsCompleted two_at_once (pos 3) receive_only []

tb_set_bsd_sock_opts-rc_example :
    let rc = (tb_set_bsd_sock_opts two_at_once no_options (pos 3) (8 ∷ [])).rc in
    ((rc ≡ pos 0) ↔ AllWrites two_at_once (pos 3) no_options (8 ∷ []))
    × ((rc ≡ pos 0) ⊎ (rc ≡ minus_one))
tb_set_bsd_sock_opts-rc_example = tb_set_bsd_sock_opts-rc two_at_once (pos 3) no_options (8 ∷ [])

tb_set_udt_opts-ignores_send_example :
    let left = tb_set_udt_opts two_at_once (record no_options { l3_s_b_size = pos 5 }) (pos 3) [] in
    let right =
      tb_set_udt_opts two_at_once (record no_options { l3_s_b_size = pos 6 }) (pos 3) [] in
    (left.rc ≡ right.rc) × (left.world ≡ right.world)
tb_set_udt_opts-ignores_send_example =
    tb_set_udt_opts-ignores_send two_at_once (pos 3) no_options (pos 5) (pos 6) [] (ground arith)
      (ground arith)
