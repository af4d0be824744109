-- ===== src/Udp/Client/Tests.antt =====
-- A client of src/tb_udp.c whose packets are larger than the send buffer.
use fastuserprotocol.Common.{ℕ, ◌≡◌, refl, false, some, inr, List, [], ◌∷◌, arith}
use fastuserprotocol.Common.Int.{pos}
use fastuserprotocol.Os.{Os}
use fastuserprotocol.Os.Sample.{some_address}
use fastuserprotocol.Epoll.{TbEpoll}
use fastuserprotocol.Listener.Net.{State}
use fastuserprotocol.Listener.{tb_aborting}
use fastuserprotocol.Listener.Sample.{tcp_client}
use fastuserprotocol.Udp.Client.{Outgoing, tb_udp_client}
use fastuserprotocol.Udp.Client.Laws.{Unfinished, tb_udp_client-Unfinished}
use fastuserprotocol.Udp.Sample.{still}

-- The send buffer has two bytes, and is empty.
abbrev tight : Os (List ℕ)
tight = record still { getsockopt = λ fd o w. (some (pos 2), w) }

abbrev idle : Outgoing (List ℕ)
idle = record {
  outq = λ fd w. (some (pos 0), w);
  would_block = λ w. false;
  epoll_wait = λ e events most time w. (pos 0, (events, w));
}

abbrev instance_of_epoll : TbEpoll
instance_of_epoll = record { e_id = pos 5; w_time = pos 50; max_events = pos 5; events = [] }

-- Five bytes, three at a time.
abbrev begun : State (List ℕ)
begun = record { listener = tcp_client (1 ∷ 2 ∷ 3 ∷ 4 ∷ 5 ∷ []); world = [] }

tb_udp_client-Unfinished_example :
    Unfinished
      (λ s. (s.status ≡ tb_aborting) × (s.total_tx_rx ≡ pos 0))
      (tb_udp_client tight idle 9 1 (some instance_of_epoll) begun)
tb_udp_client-Unfinished_example =
    tb_udp_client-Unfinished tight idle 5 3 2 (λ fd w. inr (0, refl)) (λ fd w. inr refl)
      (omega arith) (omega arith) (omega arith) some_address 9 1 instance_of_epoll begun
      (record {
        calls = record { f_connect = refl; f_close = refl; callbacks = refl };
        file_size = refl;
        total = refl;
        bufsize = refl;
      })
      refl
