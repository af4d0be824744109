-- ===== src/Udp/Event/Counted.antt =====
-- What tb_udp_event of src/tb_udp.c has counted when it returns.
use fastuserprotocol.Common.{
  ℕ, zero, suc, ◌<◌, ◌≡◌, refl, ap, ◌∙◌, inl, inr, Bool, true, false, List, [], ◌∷◌, arith,
  if◌then◌else◌, length, Bool-cases,
}
use fastuserprotocol.Common.Int.{ℤ, pos, minus_one, ltb_ℤ}
use fastuserprotocol.Os.{Os, Run, ok, ◌>>◌, bind-ok}
use fastuserprotocol.Stats.{Ptr}
use fastuserprotocol.Session.Ledger.{Ledger, ledger, credit}
use fastuserprotocol.Listener.{Status, tb_exit, tb_listening}
use fastuserprotocol.Timer.{tb_start_time}
use fastuserprotocol.Stream.Event.{Hub}
use fastuserprotocol.Udp.{Messages}
use fastuserprotocol.Udp.Contract.{Datagram, part, empty, DeliversDatagrams}
use fastuserprotocol.Udp.Event.{
  take_part, event_loop, first_event, tb_udp_event, with_buffer, call_for_exit, header_room,
}
use fastuserprotocol.Udp.Event.Laws.{IsOpen, take_part-IsOpen}

-- The account of the datagrams that wait, with the last two numbers that were read, and whether they
-- call for an exit: eight bytes for each that counts, the rest of which is not received. An empty
-- one counts for the numbers of the one before it.
abbrev pub tally : ℤ → ℤ → List Datagram → Ledger → Ledger × Bool
tally id sz [] v = (v, false)
tally id sz (empty ∷ ms) v =
    if ltb_ℤ (pos 0) sz then tally id sz ms (credit id (pos 0) v) else (v, true)
tally id sz (part i n len ∷ ms) v =
    if ltb_ℤ (pos 0) n then tally i n ms (credit i (pos 8) v) else (v, true)

-- The listener and its list afterwards.
pub record IsCounted {World : Type 0} (s : Hub World) (xs : List Ptr) (fd : ℤ) (r : Ledger × Bool)
    (t : Hub World) (ys : List Ptr) : Type 0 where
  pub opened : IsOpen t ys
  pub entries : ledger t.store ys ≡ r.0
  pub command : t.listener.command ≡ (if r.1 then tb_exit else s.listener.command)

module _ {World : Type 0} (os : Os World) (msgs : Messages World)
    (waiting : ℤ → World → List Datagram) (law : DeliversDatagrams os msgs waiting) where
  abbrev Outcome : ℤ → Hub World → List Ptr → Ledger × Bool → Run (Hub World) ℤ → Type 0
  Outcome fd s xs account r =
      (t : Hub World) × (ys : List Ptr) × (r ≡ ok (pos 0) t) × IsCounted s xs fd account t ys

  abbrev received : ℤ → ℤ → ℤ → Hub World → ℤ × ℤ × ℤ × World
  received fd id sz s = msgs.recvmsg fd header_room id sz s.world

  -- A change of the world alone keeps the listener open.
  moved-IsOpen :
      (s : Hub World) (xs : List Ptr) (w : World) → IsOpen s xs → IsOpen (record s { world = w }) xs
  moved-IsOpen s xs w i = record {
    list = i.list;
    active = i.active;
    unused = i.unused;
    not_null = i.not_null;
    current = i.current;
  }

  -- A datagram that counts, and then what comes of the others.
  counted_on :
      (fd id n : ℤ) (rc : ℤ) (s : Hub World) (xs : List Ptr) (w : World) (ms : List Datagram)
      (loop : Hub World → Run (Hub World) ℤ)
      → IsOpen s xs
      → ((u : Hub World) (ys : List Ptr)
          → IsOpen u ys
          → u.world ≡ w
          → Outcome fd u ys (tally id n ms (ledger u.store ys)) (loop u))
      → Outcome fd s xs
          (tally id n ms (credit id rc (ledger s.store xs)))
          ((take_part id rc >> loop) (record s { world = w }))
  counted_on fd id n rc s xs w ms loop i again =
      let t : Hub World = record s { world = w } in
      let (u, ys, run, i', beside, entries) = take_part-IsOpen t xs id (moved-IsOpen s xs w i) rc in
      let (v, zs, run', c) = again u ys i' beside.world in
      let same = ap (tally id n ms) entries in
      (
        v,
        zs,
        bind-ok (take_part id rc) (λ _. loop) t tt u run ∙ run',
        record {
          opened = c.opened;
          entries = c.entries ∙ ap (λ a. a.0) same;
          command =
              c.command
              ∙ ap (λ a. if a.1 then tb_exit else u.listener.command) same
              ∙ ap
                  (λ m. if (tally id n ms (credit id rc (ledger s.store xs))).1 then tb_exit else m)
                  beside.command;
        },
      )

  exit_called :
      (s : Hub World) (xs : List Ptr) (fd : ℤ) (w : World)
      → IsOpen s xs
      → IsCounted s xs fd
          (ledger s.store xs, true)
          (call_for_exit os msgs (record s { world = w }))
          xs
  exit_called s xs fd w i = record {
    opened = record {
      list = i.list;
      active = i.active;
      unused = i.unused;
      not_null = i.not_null;
      current = i.current;
    };
    entries = refl;
    command = refl;
  }

  event_loop-IsCounted :
      (fuel : ℕ) (fd id sz : ℤ) (s : Hub World) (xs : List Ptr) (ms : List Datagram)
      → IsOpen s xs
      → waiting fd s.world ≡ ms
      → length ms < fuel
      → Outcome fd s xs (tally id sz ms (ledger s.store xs)) (event_loop os msgs fuel fd id sz s)
  unfolding event_loop
  event_loop-IsCounted zero fd id sz s xs ms i e lt = absurd (omega arith)
  event_loop-IsCounted (suc fuel) fd id sz s xs [] i e lt =
      let (neg, block, left) = law.none_left fd header_room id sz s.world e in
      rw (neg, block)
        (
          record s { world = (received fd id sz s).3 },
          xs,
          refl,
          record { opened = moved-IsOpen s xs _ i; entries = refl; command = refl },
        )
  event_loop-IsCounted (suc fuel) fd id sz s xs (empty ∷ ms) i e lt =
      let w = (received fd id sz s).3 in
      let (none_got, same_id, same_sz, left) = law.empty_next fd header_room id sz s.world ms e in
      rw (none_got, same_id, same_sz)
        (elim (Bool-cases (ltb_ℤ (pos 0) sz)) [
          | inl more ↦ rw more (
              counted_on fd id sz (pos 0) s xs w ms (event_loop os msgs fuel fd id sz) i
                (λ u ys i' moved.
                  event_loop-IsCounted fuel fd id sz u ys ms i' (ap (waiting fd) moved ∙ left)
                    (omega arith)))
          | inr over ↦
              rw over
                (call_for_exit os msgs (record s { world = w }), xs, refl, exit_called s xs fd w i)
        ])
  event_loop-IsCounted (suc fuel) fd id sz s xs (part j n len ∷ ms) i e lt =
      let w = (received fd id sz s).3 in
      let (got, its_id, its_sz, left) =
        law.part_next fd header_room id sz s.world j n len ms (omega arith) e in
      let eight : (received fd id sz s).0 ≡ pos 8 = got ∙ ap pos (omega arith) in
      rw (eight, its_id, its_sz)
        (elim (Bool-cases (ltb_ℤ (pos 0) n)) [
          | inl more ↦ rw more (
              counted_on fd j n (pos 8) s xs w ms (event_loop os msgs fuel fd j n) i
                (λ u ys i' moved.
                  event_loop-IsCounted fuel fd j n u ys ms i' (ap (waiting fd) moved ∙ left)
                    (omega arith)))
          | inr over ↦
              rw over
                (call_for_exit os msgs (record s { world = w }), xs, refl, exit_called s xs fd w i)
        ])

  -- Starting the clock leaves what is counted, and what waits.
  first_event-kept :
      (s : Hub World) (xs : List Ptr) (fd : ℤ) (st : Status)
      → IsOpen s xs
      → let t = first_event os msgs st s in
        IsOpen t xs
        × (t.store ≡ s.store)
        × (t.listener.command ≡ s.listener.command)
        × (waiting fd t.world ≡ waiting fd s.world)
        × (t.listener.curr_session ≡ s.listener.curr_session)
  unfolding tb_start_time
  first_event-kept s xs fd tb_listening i = (
    record {
      list = i.list;
      active = i.active;
      unused = i.unused;
      not_null = i.not_null;
      current = i.current;
    },
    refl,
    refl,
    law.reading_clock fd s.world,
    refl,
  )
  first_event-kept s xs fd _ i = (i, refl, refl, refl, refl)

  -- An event at a listener whose list is well formed, with all sessions active and one of its own,
  -- ends with the answer 0: it reads no bad pointer, and one round more than datagrams wait is
  -- enough. The list is well formed again, with all sessions active; its numbers and their bytes
  -- are those that the account `tally` of the datagrams gives from those before, and the command
  -- is TB_EXIT if the account says so, and else as it was.
  pub tb_udp_event-IsCounted :
      (fuel : ℕ) (fd : ℤ) (s : Hub World) (xs : List Ptr)
      → IsOpen s xs
      → length (waiting fd s.world) < fuel
      → (t : Hub World) × (ys : List Ptr) × (tb_udp_event os msgs fuel fd s ≡ ok (pos 0) t)
        × IsCounted s xs fd (tally minus_one (pos 0) (waiting fd s.world) (ledger s.store xs)) t ys
  unfolding tb_udp_event with_buffer
  tb_udp_event-IsCounted fuel fd s xs i lt =
      let t = first_event os msgs s.listener.status s in
      let (i', store, command, kept, cur) = first_event-kept s xs fd s.listener.status i in
      let (c, at) = i.current in
      let (u, ys, run, done) =
        event_loop-IsCounted fuel fd minus_one (pos 0) t xs (waiting fd s.world) i' kept lt in
      let same = ap (λ h. tally minus_one (pos 0) (waiting fd s.world) (ledger h xs)) store in
      (
        u,
        ys,
        ap (λ o. with_buffer os msgs o (event_loop os msgs fuel fd minus_one (pos 0)) t) at ∙ run,
        record {
          opened = done.opened;
          entries = done.entries ∙ ap (λ a. a.0) same;
          command =
              done.command
              ∙ ap (λ a. if a.1 then tb_exit else t.listener.command) same
              ∙ ap
                  (λ m.
                    if (tally minus_one (pos 0) (waiting fd s.world) (ledger s.store xs)).1
                    then tb_exit
                    else m)
                  command;
        },
      )
