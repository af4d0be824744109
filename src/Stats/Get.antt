-- ===== src/Stats/Get.antt =====
-- tb_get_stats of src/tb_protocol.c and the functions that it calls, less what is floating point.
use fastuserprotocol.Common.{◌≡◌, arith, Option, none, some}
use fastuserprotocol.Common.Int.{ℤ, pos, ◌+ℤ◌, to_int}
use fastuserprotocol.Protocol.{tcp, udp, udt, a_udt, utp, e_udp, dccp}
use fastuserprotocol.Os.{Os, so_rcvbuf, so_sndbuf}
use fastuserprotocol.Stats.{TbProtStats}

-- A call that fails leaves the variable that it would write as it was.
abbrev written : ℤ → Option ℤ → ℤ
written old none = old
written old (some new) = new

module _ {World : Type 0} (os : Os World) where
  unfoldable pub tb_get_bsd_stats : TbProtStats → ℤ → World → TbProtStats × World
  tb_get_bsd_stats t fd w =
      let snd = os.getsockopt fd so_sndbuf w in
      let rcv = os.getsockopt fd so_rcvbuf snd.1 in
      (
        record t {
          w_buff_size = written t.w_buff_size snd.0;
          r_buff_size = written t.r_buff_size rcv.0;
        },
        rcv.1,
      )

  unfoldable pub get_tcp_stats : TbProtStats → ℤ → World → TbProtStats × World
  unfolding tb_get_bsd_stats
  get_tcp_stats t fd w =
      let info = os.tcp_info fd w in
      elim info.0 [
        | none ↦ (t, info.1)
        | some lost ↦ tb_get_bsd_stats (record t { recv_p_loss = to_int (pos lost) }) fd info.1
      ]

  unfoldable pub get_udt_stats : TbProtStats → ℤ → World → TbProtStats × World
  get_udt_stats t fd w =
      let perf = os.udt_perfmon fd w in
      elim perf.0 [
        | none ↦ (t, perf.1)
        | some (snd, rcv) ↦ (record t { send_p_loss = snd; recv_p_loss = rcv }, perf.1)
      ]

  -- get_udp_stats, get_utp_stats and get_dccp_stats only call tb_get_bsd_stats.
  unfoldable pub tb_get_stats : TbProtStats → ℤ → World → TbProtStats × World
  unfolding tb_get_bsd_stats get_tcp_stats get_udt_stats
  tb_get_stats t fd w =
      let t' = record t { id = t.id +ℤ pos 1 } in
      elim t.protocol [
        | tcp ↦ get_tcp_stats t' fd w
        | udp ↦ tb_get_bsd_stats t' fd w
        | e_udp ↦ tb_get_bsd_stats t' fd w
        | udt ↦ get_udt_stats t' fd w
        | a_udt ↦ get_udt_stats t' fd w
        | utp ↦ tb_get_bsd_stats t' fd w
        | dccp ↦ tb_get_bsd_stats t' fd w
      ]

  -- Collecting statistics keeps the links and the times.
  pub tb_get_stats-keeps :
      (t : TbProtStats) (fd : ℤ) (w : World)
      → let t' = (tb_get_stats t fd w).0 in
        (t'.n_stats ≡ t.n_stats)
        × (t'.id ≡ t.id +ℤ pos 1)
        × (t'.protocol ≡ t.protocol)
        × (t'.current_read ≡ t.current_read)
  unfolding tb_get_stats tb_get_bsd_stats get_tcp_stats get_udt_stats
  tb_get_stats-keeps t fd w = ground arith
