-- ===== src/Udp/Server/Tests.antt =====
-- A run of the server of src/tb_udp.c.
use Prim.Native.Nat.{min}
use fastuserprotocol.Common.{ℕ, refl, inr, List, [], ◌∷◌, arith, length, replicate}
use fastuserprotocol.Common.Int.{ℤ, pos, minus_one, ◌+ℤ◌}
use fastuserprotocol.Os.{Os, Ends}
use fastuserprotocol.Os.Sample.{two_at_once}
use fastuserprotocol.Listener.{TbListener, server}
use fastuserprotocol.Listener.Sample.{tcp_client, udp_table}
use fastuserprotocol.Listener.Net.{State}
use fastuserprotocol.Listener.Net.Laws.{IsAborted}
use fastuserprotocol.Udp.Contract.{ReceivesDatagrams}
use fastuserprotocol.Udp.Server.{tb_udp_server}
use fastuserprotocol.Udp.Server.Served.{IsServed, tb_udp_server-IsServed}

abbrev first_size : ℕ → List ℕ → ℤ × List ℕ × List ℕ
first_size room [] = (minus_one, [], [])
first_size room (n ∷ ns) = (pos (min room n), replicate (min room n) 1, ns)

-- The world is the sizes of the datagrams to come.
abbrev sizes : Os (List ℕ)
sizes = record two_at_once {
  recv = λ f fd room w. first_size room w;
  send = λ f fd bytes w. (pos (length bytes), w);
}

abbrev all_sizes : ℤ → List ℕ → List ℕ
all_sizes fd w = w

sizes-ReceivesDatagrams : ReceivesDatagrams sizes all_sizes
sizes-ReceivesDatagrams = record {
  answers = λ fd room w n ns e. rw e (inr (refl, refl));
  sending = λ g fd d bytes w. refl;
  closing = λ g fd d w. refl;
  checking_signals = λ fd w. refl;
  reading_clock = λ fd w. refl;
}

-- A buffer of three bytes.
abbrev udp_server : TbListener
udp_server = record (tcp_client []) { e_type = server; protocol = udp_table }

abbrev five_come : State (List ℕ)
five_come = record { listener = udp_server; world = 2 ∷ 7 ∷ 1 ∷ 0 ∷ 4 ∷ [] }

tb_udp_server-IsServed_example :
    Ends
      (IsServed all_sizes (pos 3) (pos 6) (4 ∷ []))
      (IsAborted sizes)
      (tb_udp_server sizes 3 five_come)
unfolding ◌+ℤ◌
tb_udp_server-IsServed_example =
    tb_udp_server-IsServed sizes all_sizes sizes-ReceivesDatagrams 3 (pos 3) (λ w. refl) 3 (pos 0) 2
      (7 ∷ 1 ∷ []) (4 ∷ []) five_come (omega arith) (omega arith)
      (record {
        f_recfrom = refl;
        f_sendto = refl;
        f_close = refl;
        eot = refl;
        callbacks = refl;
        sock_d = refl;
        total_tx_rx = refl;
        command = refl;
      })
      refl (omega arith) refl (omega arith)
