-- ===== src/Epoll.antt =====
-- src/tb_epoll.c: waiting for events and calling back for each.
mod Laws
mod Tests
use fastuserprotocol.Common.{ℕ, zero, suc, ◌/◌, ◌%◌, List, get_elem?, Bool, if◌then◌else◌, ◌==◌}
use fastuserprotocol.Common.Int.{ℤ, pos, negsuc, minus_one}
use fastuserprotocol.Os.{Run, ok, exited, halted, fault, out_of_fuel, pure, ◌>>=◌, deref}

pub record TbEData : Type 0 where
  fd : ℤ
  payload : ℕ

pub record EpollEvent : Type 0 where
  events : ℕ
  ptr : TbEData

abbrev pub epollin : ℕ
epollin = 1

abbrev pub epollhup : ℕ
epollhup = 16

-- A mask of one bit is in the word.
abbrev pub has : ℕ → ℕ → Bool
has word mask = word / mask % 2 == 1

-- The fields that a poll uses. The array of events is part of the state, since the system writes
-- the events into it.
pub record TbEpoll : Type 0 where
  pub e_id : ℤ
  pub w_time : ℤ
  pub max_events : ℤ
  pub events : List EpollEvent

pub record Polled (World : Type 0) : Type 0 where
  pub e_poll : TbEpoll
  pub world : World

-- How often `for(i = 0; i < n; i++)` runs.
abbrev pub rounds : ℤ → ℕ
rounds (pos n) = n
rounds (negsuc n) = 0

-- epoll_wait gets the descriptor, the array, the most events to report and the time to wait, and
-- answers how many it has put into the array; f_event is the callback.
module _ {World : Type 0}
    (epoll_wait : ℤ → List EpollEvent → ℤ → ℤ → World → ℤ × (List EpollEvent × World))
    (f_event : ℕ → TbEData → World → Run World ℤ) where
  abbrev pub call_event : EpollEvent → Polled World → Run (Polled World) ℤ
  call_event e s = elim (f_event e.events e.ptr s.world) [
    | ok rc w ↦ ok rc (record s { world = w })
    | exited w ↦ exited (record s { world = w })
    | halted w ↦ halted (record s { world = w })
    | fault ↦ fault
    | out_of_fuel ↦ out_of_fuel
  ]

  -- The else branches, which read the event number 1 whatever `i` is.
  abbrev pub not_readable : Polled World → Run (Polled World) ℤ
  not_readable s =
      (deref (get_elem? s.e_poll.events 1) >>= λ second.
      if has second.events epollhup then pure (pos 1) else pure minus_one)
        s

  -- The events from number `i` on, of which `left` are to be looked at.
  unfoldable pub poll_loop : ℕ → ℕ → Polled World → Run (Polled World) ℤ
  poll_loop zero i s = ok (pos 0) s
  poll_loop (suc left) i s =
      (deref (get_elem? s.e_poll.events i) >>= λ e.
      if has e.events epollin then (call_event e >>= λ _. poll_loop left (suc i)) else not_readable)
        s

  unfoldable pub tb_poll_for_events : Polled World → Run (Polled World) ℤ
  tb_poll_for_events s =
      let e = s.e_poll in
      let r = epoll_wait e.e_id e.events e.max_events e.w_time s.world in
      poll_loop (rounds r.0) 0 (record s { e_poll = record e { events = r.1.0 }; world = r.1.1 })
