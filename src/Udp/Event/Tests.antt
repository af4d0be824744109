-- ===== src/Udp/Event/Tests.antt =====
-- Events of a server for UDP, src/tb_udp.c.
use fastuserprotocol.Common.{◌*◌, ◌≡◌, refl, none, some, List, [], ◌∷◌, arith}
use fastuserprotocol.Common.Int.{ℤ, pos, minus_one, ◌+ℤ◌}
use fastuserprotocol.Os.{ok}
use fastuserprotocol.Stats.{Ptr}
use fastuserprotocol.Session.{tb_create_server_session}
use fastuserprotocol.Session.Ledger.{ledger}
use fastuserprotocol.Listener.{TbListener, tb_listening, m_server}
use fastuserprotocol.Listener.Sample.{tcp_client, udp_table}
use fastuserprotocol.Stream.Event.{Hub}
use fastuserprotocol.Udp.Contract.{Datagram, part, empty}
use fastuserprotocol.Udp.Sample.{still, queue, in_queue, queue-DeliversDatagrams}
use fastuserprotocol.Udp.Event.{tb_udp_event}
use fastuserprotocol.Udp.Event.Laws.{IsOpen}
use fastuserprotocol.Udp.Event.Counted.{tally, IsCounted, tb_udp_event-IsCounted}
use fastuserprotocol.Udp.Event.Headers.{bytes_for, count_for, tb_udp_event-headers_only}

abbrev udp_server : TbListener
udp_server = record (tcp_client []) {
  e_type = m_server;
  protocol = udp_table;
  status = tb_listening;
  curr_session = some tb_create_server_session;
}

abbrev waiting_at : List Datagram → Hub (List Datagram)
waiting_at ms = record { listener = udp_server; store = λ p. none; next = 1; world = ms }

waiting_at-IsOpen : (ms : List Datagram) → IsOpen (waiting_at ms) []
waiting_at-IsOpen ms = record {
  list = record { chain = refl; distinct = tt; last = refl; count = refl };
  active = refl;
  unused = λ p le. refl;
  not_null = omega arith;
  current = (tb_create_server_session, refl);
}

-- Two sessions, and an exit that is seen since the last datagram before it has no bytes.
abbrev some_datagrams : List Datagram
some_datagrams = part (pos 7) (pos 100) 100 ∷ part (pos 9) (pos 3) 3 ∷ part (pos 7) (pos 0) 0 ∷ []

tb_udp_event-IsCounted_example :
    (t : Hub (List Datagram)) × (ys : List Ptr) × (tb_udp_event still queue 4
        (pos 3)
        (waiting_at some_datagrams)
      ≡ ok (pos 0) t)
    × IsCounted
        (waiting_at some_datagrams)
        []
        (pos 3)
        (tally minus_one (pos 0) some_datagrams [])
        t
        ys
tb_udp_event-IsCounted_example =
    tb_udp_event-IsCounted still queue in_queue queue-DeliversDatagrams 4 (pos 3)
      (waiting_at some_datagrams) [] (waiting_at-IsOpen some_datagrams) (omega arith)

-- Two datagrams for one session with an empty one between them.
abbrev with_empty : List Datagram
with_empty = empty ∷ part (pos 7) (pos 60) 60 ∷ []

tb_udp_event-headers_only_example :
    (t : Hub (List Datagram)) × (ys : List Ptr) × (tb_udp_event still queue 4
        (pos 3)
        (waiting_at (part (pos 7) (pos 100) 100 ∷ with_empty))
      ≡ ok (pos 0) t)
    × (t.listener.command ≡ udp_server.command)
    × ((i : ℤ)
        → bytes_for i (ledger t.store ys)
          ≡ bytes_for i [] +ℤ pos (8 * count_for i (part (pos 7) (pos 100) 100 ∷ with_empty)))
tb_udp_event-headers_only_example =
    tb_udp_event-headers_only still queue in_queue 4 (pos 3)
      (waiting_at (part (pos 7) (pos 100) 100 ∷ with_empty)) [] (pos 7) (pos 100) 100 with_empty
      queue-DeliversDatagrams (waiting_at-IsOpen (part (pos 7) (pos 100) 100 ∷ with_empty)) refl
      (refl, (refl, tt)) (omega arith)
