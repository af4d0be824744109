-- ===== src/Udt/Server/Tests.antt =====
-- A run of the server of src/tb_udt.c.
use fastuserprotocol.Common.{ℕ, refl, List, [], ◌∷◌, arith}
use fastuserprotocol.Common.Int.{pos}
use fastuserprotocol.Os.{Ends}
use fastuserprotocol.Listener.{server}
use fastuserprotocol.Listener.Sample.{udt_listener}
use fastuserprotocol.Listener.Net.{State}
use fastuserprotocol.Listener.Net.Laws.{IsAborted}
use fastuserprotocol.Udt.Sample.{breaks, broken, to_come, breaks-ReceivesSome}
use fastuserprotocol.Udt.Server.{tb_udt_server}
use fastuserprotocol.Udt.Server.Served.{IsServed, Broke, tb_udt_server-IsServed}

-- Four bytes to come, into a buffer of three.
abbrev waiting : State (List ℕ)
waiting = record {
  listener = record udt_listener { e_type = server; sock_d = pos 3; bufsize = pos 3 };
  world = 1 ∷ 2 ∷ 3 ∷ 4 ∷ [];
}

tb_udt_server-IsServed_example :
    Ends
      (λ r t.
        (n : ℕ) × IsServed (pos 0) n r t
        × Broke breaks broken to_come breaks-ReceivesSome
            (λ w. refl)
            3
            (pos 3)
            (pos 0)
            (pos 4, 1 ∷ 2 ∷ 3 ∷ 4 ∷ [])
            n)
      (IsAborted breaks)
      (tb_udt_server breaks broken 2 5 waiting)
tb_udt_server-IsServed_example =
    tb_udt_server-IsServed breaks broken to_come breaks-ReceivesSome (λ w. refl) 3 (pos 3) (pos 0) 0
      5 waiting
      (record {
        udt = record { f_close = refl; command = refl };
        bufsize = refl;
        sock_d = refl;
        total_tx_rx = refl;
        s_tx_end = refl;
      })
      (omega arith) (omega arith) (omega arith)
