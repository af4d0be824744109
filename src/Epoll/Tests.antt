-- ===== src/Epoll/Tests.antt =====
-- Polls of src/tb_epoll.c for three events.
use fastuserprotocol.Common.{ℕ, ◌≡◌, refl, List, [], ◌∷◌, ◌++◌, arith}
use fastuserprotocol.Common.Int.{ℤ, pos}
use fastuserprotocol.Os.{Run, ok}
use fastuserprotocol.Epoll.{TbEData, EpollEvent, Polled, tb_poll_for_events}
use fastuserprotocol.Epoll.Laws.{
  polled, tb_poll_for_events-AllReadable, tb_poll_for_events-not_readable,
}

-- A word of events at a socket.
abbrev at_socket : ℕ → ℕ → EpollEvent
at_socket word n = record { events = word; ptr = record { fd = pos n; payload = n } }

-- The world is the sockets that were called back, the last one first.
abbrev called_back : ℕ → TbEData → List ℕ → Run (List ℕ) ℤ
called_back word d w = ok (pos 0) (d.payload ∷ w)

abbrev noted : EpollEvent → List ℕ → List ℕ
noted e w = e.ptr.payload ∷ w

abbrev reports :
    ℕ → List EpollEvent → ℤ → List EpollEvent → ℤ → ℤ → List ℕ → ℤ × (List EpollEvent × List ℕ)
reports n found e_id buff max_events w_time w = (pos n, (found, w))

abbrev idle : Polled (List ℕ)
idle = record {
  e_poll = record { e_id = pos 3; w_time = pos 100; max_events = pos 3; events = [] };
  world = [];
}

abbrev readable : List EpollEvent
readable = at_socket 1 5 ∷ at_socket 17 6 ∷ []

abbrev idle_event : List EpollEvent
idle_event = at_socket 0 0 ∷ []

tb_poll_for_events-AllReadable_example :
    tb_poll_for_events (reports 2 (readable ++ idle_event)) called_back idle
    ≡ ok (pos 0) (polled idle (readable ++ idle_event) (6 ∷ 5 ∷ []))
tb_poll_for_events-AllReadable_example =
    tb_poll_for_events-AllReadable (reports 2 (readable ++ idle_event)) called_back (λ _ _. pos 0)
      noted (λ _ _. refl) idle readable idle_event [] refl (refl, (refl, tt))

-- The third event, which cannot be read, has no hang-up, but the second one has.
tb_poll_for_events-not_readable_example :
    tb_poll_for_events (reports 3 (readable ++ idle_event)) called_back idle
    ≡ ok (pos 1) (polled idle (readable ++ idle_event) (6 ∷ 5 ∷ []))
tb_poll_for_events-not_readable_example =
    tb_poll_for_events-not_readable (reports 3 (readable ++ idle_event)) called_back (λ _ _. pos 0)
      noted (λ _ _. refl) idle readable [] (at_socket 0 0) (at_socket 17 6) 3 [] refl (omega arith)
      (refl, (refl, tt)) refl refl
