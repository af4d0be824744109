-- ===== src/Udt/Receiver/Tests.antt =====
-- A run of the thread of a server's connection of src/tb_udt.c.
use fastuserprotocol.Common.{ℕ, refl, List, [], ◌∷◌, arith}
use fastuserprotocol.Common.Int.{pos, to_u64-lt}
use fastuserprotocol.Os.{Ends}
use fastuserprotocol.Timer.{tb_create_time}
use fastuserprotocol.Session.{tb_create_session, empty_list}
use fastuserprotocol.Listener.{tb_continue}
use fastuserprotocol.Stream.Receiver.{Door}
use fastuserprotocol.Udt.Sample.{breaks, broken, to_come, breaks-ReceivesBytes}
use fastuserprotocol.Udt.Receiver.{tb_udt_m_server_conn}
use fastuserprotocol.Udt.Receiver.Laws.{HasServedUdt, tb_udt_m_server_conn-HasServed}

-- The last connection, with four bytes to come and a buffer of three.
abbrev last_one : Door (List ℕ)
last_one = record {
  session = record tb_create_session { sock_d = pos 4; pack_size = pos 3 };
  list = record empty_list { num_active_conn = pos 1 };
  command = tb_continue;
  world = 1 ∷ 2 ∷ 3 ∷ 4 ∷ [];
}

tb_udt_m_server_conn-HasServed_example :
    Ends
      (HasServedUdt breaks broken to_come last_one)
      (λ _. ⊥)
      (tb_udt_m_server_conn breaks broken 5 last_one)
tb_udt_m_server_conn-HasServed_example =
    tb_udt_m_server_conn-HasServed breaks broken to_come breaks-ReceivesBytes 5 last_one
      tb_create_time refl (to_u64-lt 3 (omega arith) (omega arith)) (omega arith)
