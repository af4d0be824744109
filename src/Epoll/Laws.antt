-- ===== src/Epoll/Laws.antt =====
-- What a poll of src/tb_epoll.c does with the events that are reported.
use mathlib.Core.List.{append_assoc}
use fastuserprotocol.Common.{
  ℕ, zero, suc, ◌+◌, ◌-◌, ◌<◌, ◌≡◌, refl, sym, ap, ◌∙◌, List, [], ◌∷◌, ◌++◌, length, length-append,
  get_elem?, some, Bool, true, false, if◌then◌else◌, arith,
}
use fastuserprotocol.Common.Int.{ℤ, pos, minus_one}
use fastuserprotocol.Os.{Run, ok, pure, bind-ok}
use fastuserprotocol.Epoll.{
  TbEData, EpollEvent, epollin, epollhup, has, Polled, call_event, rounds, poll_loop,
  tb_poll_for_events,
}

get_elem?-between :
    {A : Type 0} (before after : List A) (x : A)
    → get_elem? (before ++ (x ∷ after)) (length before) ≡ some x
get_elem?-between [] after x = refl
get_elem?-between (y ∷ before) after x = get_elem?-between before after x

abbrev pub AllReadable : List EpollEvent → Type 0
AllReadable [] = Unit
AllReadable (e ∷ es) = (has e.events epollin ≡ true) × AllReadable es

-- The world after a call for each event in turn.
abbrev pub after_calls :
    {World : Type 0} → (EpollEvent → World → World) → List EpollEvent → World → World
after_calls step [] w = w
after_calls step (e ∷ es) w = after_calls step es (step e w)

if-pure :
    {S A : Type 0} (b : Bool) (a c : A) (s : S)
    → (if b then pure a else pure c) s ≡ ok (if b then a else c) s
if-pure true a c s = refl
if-pure false a c s = refl

-- What epoll_wait answers to a poll.
abbrev pub waits :
    {World : Type 0}
    → (ℤ → List EpollEvent → ℤ → ℤ → World → ℤ × (List EpollEvent × World))
    → Polled World
    → ℤ × (List EpollEvent × World)
waits epoll_wait s = let e = s.e_poll in epoll_wait e.e_id e.events e.max_events e.w_time s.world

abbrev pub polled : {World : Type 0} → Polled World → List EpollEvent → World → Polled World
polled s buff w = record s { e_poll = record s.e_poll { events = buff }; world = w }

module _ {World : Type 0}
    (epoll_wait : ℤ → List EpollEvent → ℤ → ℤ → World → ℤ × (List EpollEvent × World))
    (f_event : ℕ → TbEData → World → Run World ℤ) (answer : EpollEvent → World → ℤ)
    (step : EpollEvent → World → World)
    (returns : (e : EpollEvent) (w : World)
      → f_event e.events e.ptr w ≡ ok (answer e w) (step e w)) where
  call_event-ok :
      (e : EpollEvent) (s : Polled World)
      → call_event epoll_wait f_event e s
        ≡ ok (answer e s.world) (record s { world = step e s.world })
  call_event-ok e s = rw (returns e s.world, call_event) refl

  poll_loop-readable :
      (before ready rest : List EpollEvent) (n k i j : ℕ) (s : Polled World)
      → s.e_poll.events ≡ before ++ (ready ++ rest)
      → i ≡ length before
      → j ≡ i + length ready
      → n ≡ length ready + k
      → AllReadable ready
      → poll_loop epoll_wait f_event n i s
        ≡ poll_loop epoll_wait f_event k j (record s { world = after_calls step ready s.world })
  unfolding poll_loop
  poll_loop-readable before [] rest n k i j s es ei ej en all =
      ap (λ m. poll_loop epoll_wait f_event m i s) (omega arith)
      ∙ ap (λ m. poll_loop epoll_wait f_event k m s) (omega arith)
  poll_loop-readable before (e ∷ ready) rest zero k i j s es ei ej en all = absurd (omega arith)
  poll_loop-readable before (e ∷ ready) rest (suc n) k i j s es ei ej en all =
      let here : get_elem? s.e_poll.events i ≡ some e =
        ap (get_elem? s.e_poll.events) ei
        ∙ ap (λ es. get_elem? es (length before)) es
        ∙ get_elem?-between before (ready ++ rest) e in
      let next = record s { world = step e s.world } in
      let joined : s.e_poll.events ≡ (before ++ (e ∷ [])) ++ (ready ++ rest) =
        es ∙ sym (append_assoc before (e ∷ []) (ready ++ rest)) in
      rw (here, all.0)
        (bind-ok (call_event epoll_wait f_event e) (λ _. poll_loop epoll_wait f_event n (suc i)) s
            (answer e s.world) next (call_event-ok e s)
          ∙ poll_loop-readable (before ++ (e ∷ [])) ready rest n k (suc i) j next joined
              (omega (arith, length-append before (e ∷ []))) (omega arith) (omega arith) all.1)

  stopped :
      (left i : ℕ) (s : Polled World) (bad second : EpollEvent)
      → get_elem? s.e_poll.events i ≡ some bad
      → has bad.events epollin ≡ false
      → get_elem? s.e_poll.events 1 ≡ some second
      → poll_loop epoll_wait f_event (suc left) i s
        ≡ ok (if has second.events epollhup then pos 1 else minus_one) s
  unfolding poll_loop
  stopped left i s bad second here shut at =
      rw (here, shut, at) (if-pure (has second.events epollhup) (pos 1) minus_one s)

  -- When the callback always returns, and all events that epoll_wait reports can be read, the
  -- callback is called for each of them once, in their order, and the poll answers 0.
  pub tb_poll_for_events-AllReadable :
      (s : Polled World) (ready rest : List EpollEvent) (w : World)
      → waits epoll_wait s ≡ (pos (length ready), (ready ++ rest, w))
      → AllReadable ready
      → tb_poll_for_events epoll_wait f_event s
        ≡ ok (pos 0) (polled s (ready ++ rest) (after_calls step ready w))
  unfolding tb_poll_for_events poll_loop
  tb_poll_for_events-AllReadable s ready rest w e all =
      ap
        (λ r.
          poll_loop epoll_wait f_event (rounds r.0) 0
            (record s { e_poll = record s.e_poll { events = r.1.0 }; world = r.1.1 }))
        e
      ∙ poll_loop-readable [] ready rest (length ready) 0 0 (length ready)
          (polled s (ready ++ rest) w) refl refl (omega arith) (omega arith) all

  -- When the callback always returns, and an event that cannot be read follows events that can,
  -- the callback is called for those before it alone, once each and in their order. The answer
  -- depends on the second event of the array, which need not be the one that cannot be read: it is
  -- 1 if the second event has a hang-up, and otherwise -1.
  pub tb_poll_for_events-not_readable :
      (s : Polled World) (ready rest : List EpollEvent) (bad second : EpollEvent) (n : ℕ)
      (w : World)
      → waits epoll_wait s ≡ (pos n, (ready ++ (bad ∷ rest), w))
      → length ready < n
      → AllReadable ready
      → has bad.events epollin ≡ false
      → get_elem? (ready ++ (bad ∷ rest)) 1 ≡ some second
      → tb_poll_for_events epoll_wait f_event s
        ≡ ok
            (if has second.events epollhup then pos 1 else minus_one)
            (polled s (ready ++ (bad ∷ rest)) (after_calls step ready w))
  unfolding tb_poll_for_events poll_loop
  tb_poll_for_events-not_readable s ready rest bad second n w e lt all shut at =
      let buff = ready ++ (bad ∷ rest) in
      ap
        (λ r.
          poll_loop epoll_wait f_event (rounds r.0) 0
            (record s { e_poll = record s.e_poll { events = r.1.0 }; world = r.1.1 }))
        e
      ∙ poll_loop-readable [] ready (bad ∷ rest) n (suc (n - suc (length ready))) 0 (length ready)
          (polled s buff w) refl refl (omega arith) (omega arith) all
      ∙ stopped (n - suc (length ready)) (length ready) (polled s buff (after_calls step ready w))
          bad second (get_elem?-between ready rest bad) shut at
