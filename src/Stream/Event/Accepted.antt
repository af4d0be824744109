-- ===== src/Stream/Event/Accepted.antt =====
-- What tb_stream_event of src/tb_stream.c has accepted when it returns.
use mathlib.Core.Path.{subst}
use mathlib.Core.List.{append_assoc, append-nil}
use fastuserprotocol.Common.{
  ℕ, zero, suc, ◌+◌, ◌<◌, ◌≡◌, refl, sym, ap, ◌∙◌, ◌⊎◌, inl, inr, true, List, [], ◌∷◌, ◌++◌, arith,
  length,
}
use fastuserprotocol.Common.Int.{ℤ, pos, ◌+ℤ◌, ◌==ℤ◌, +ℤ_assoc, +ℤ-id_right, pos-add}
use fastuserprotocol.Protocol.{Callee, TbProtocol, accept}
use fastuserprotocol.Os.{Os, Run, ok, exited, bind-ok, bind-exited}
use fastuserprotocol.Os.Contract.{AcceptsPending}
use fastuserprotocol.Stats.{Ptr}
use fastuserprotocol.Stream.Event.{Hub, event_loop, tb_stream_event, accept_one}
use fastuserprotocol.Stream.Event.Laws.{IsGood, IsGrown, Grows, accept_one-IsGrown}

same_socket : (d : ℤ) → (d ==ℤ d) ≡ true
same_socket d = ground arith

module _ {World : Type 0} (os : Os World) (f_accept : Callee) (pending : ℤ → World → ℕ)
    (law : AcceptsPending os f_accept pending) where
  -- The sessions `ys` are new at the end of the list, which is well formed; as many connections wait
  -- no more, and are counted as active.
  pub record IsAccepted (s : Hub World) (xs ys : List Ptr) (t : Hub World) : Type 0 where
    pub good : IsGood t (xs ++ ys)
    pub taken : length ys + pending s.listener.sock_d t.world ≡ pending s.listener.sock_d s.world
    pub active :
        t.listener.session_list.num_active_conn
        ≡ s.listener.session_list.num_active_conn +ℤ pos (length ys)

  none_taken :
      (s : Hub World) (xs : List Ptr) (w : World)
      → IsGood s xs
      → pending s.listener.sock_d w ≡ pending s.listener.sock_d s.world
      → IsAccepted s xs [] (record s { world = w })
  none_taken s xs w g e = record {
    good =
        subst (IsGood (record s { world = w })) (sym (append-nil xs))
          (record { list = g.list; ids = g.ids; unused = g.unused; not_null = g.not_null });
    taken = omega (arith, e);
    active = sym (+ℤ-id_right s.listener.session_list.num_active_conn);
  }

  at_socket :
      (s t : Hub World) (w : World)
      → t.listener.sock_d ≡ s.listener.sock_d
      → ((fd : ℤ) → pending fd t.world ≡ pending fd w)
      → pending t.listener.sock_d t.world ≡ pending s.listener.sock_d w
  at_socket s t w same left = ap (λ d. pending d t.world) same ∙ left s.listener.sock_d

  one_more :
      (s t u : Hub World) (xs ys : List Ptr) (q : Ptr) (w : World)
      → IsGrown os f_accept pending law (record s { world = w }) xs q t
      → suc (pending s.listener.sock_d w) ≡ pending s.listener.sock_d s.world
      → IsAccepted t (xs ++ q ∷ []) ys u
      → IsAccepted s xs (q ∷ ys) u
  one_more s t u xs ys q w g e a = record {
    good = subst (IsGood u) (append_assoc xs (q ∷ []) ys) a.good;
    taken =
        let there : pending s.listener.sock_d u.world ≡ pending t.listener.sock_d u.world =
          ap (λ d. pending d u.world) (sym g.sock_d) in
        omega (arith, there, a.taken, at_socket s t w g.sock_d g.pending_left, e);
    active =
        a.active
        ∙ ap (λ n. n +ℤ pos (length ys)) g.active
        ∙ +ℤ_assoc s.listener.session_list.num_active_conn (pos 1) (pos (length ys))
        ∙ ap (λ n. s.listener.session_list.num_active_conn +ℤ n)
            (pos-add 1 (length ys) ∙ ap pos (omega arith));
  }

  fewer :
      (s t : Hub World) (fuel : ℕ) (w : World)
      → t.listener.sock_d ≡ s.listener.sock_d
      → ((fd : ℤ) → pending fd t.world ≡ pending fd w)
      → suc (pending s.listener.sock_d w) ≡ pending s.listener.sock_d s.world
      → pending s.listener.sock_d s.world < suc fuel
      → pending t.listener.sock_d t.world < fuel
  fewer s t fuel w same left e lt = omega (arith, at_socket s t w same left)

  -- For each of the new sessions a connection has been accepted at `d` of which `Good` holds.
  abbrev pub Each : ℤ → (ℤ → World → Type 0) → List Ptr → Type 0
  Each d Good [] = Unit {0}
  Each d Good (_ ∷ ys) =
      ((v : World) × Good (os.accept f_accept d v).0 (os.accept f_accept d v).1) × Each d Good ys

  -- The event ends with the answer 0, and all its connections are good, or the step for one of them
  -- has ended the thread, with `Bad`.
  abbrev pub Outcome :
      (ℤ → World → Type 0)
      → (ℤ → World → Hub World → Type 0)
      → Hub World
      → List Ptr
      → Run (Hub World) ℤ
      → Type 0
  Outcome Good Bad s xs r =
      ((ys : List Ptr) × (t : Hub World) × (r ≡ ok (pos 0) t)
        × IsAccepted s xs ys t
        × Each s.listener.sock_d Good ys)
      ⊎ ((t : Hub World) × (r ≡ exited t)
          × ((v : World) × Bad (os.accept f_accept s.listener.sock_d v).0
                (os.accept f_accept s.listener.sock_d v).1 t))

  -- What a step does for a listener with the table `p`.
  abbrev pub Steps :
      TbProtocol
      → (ℤ → World → Type 0)
      → (ℤ → World → Hub World → Type 0)
      → (ℤ → Hub World → Run (Hub World) Ptr)
      → Type 0
  Steps p Good Bad step =
      (fd : ℤ) (s : Hub World) (xs : List Ptr)
      → s.listener.protocol ≡ p
      → IsGood s xs
      → (Grows os f_accept pending law s xs (step fd s) × Good fd s.world)
        ⊎ ((t : Hub World) × (step fd s ≡ exited t) × Bad fd s.world t)

  module _ (p : TbProtocol) (Good : ℤ → World → Type 0) (Bad : ℤ → World → Hub World → Type 0)
      (step : ℤ → Hub World → Run (Hub World) Ptr) (steps : Steps p Good Bad step) where
    continue :
        (s t : Hub World) (xs : List Ptr) (q : Ptr) (w : World) (r : Run (Hub World) ℤ)
        → IsGrown os f_accept pending law (record s { world = w }) xs q t
        → suc (pending s.listener.sock_d w) ≡ pending s.listener.sock_d s.world
        → (v : World) × Good
            (os.accept f_accept s.listener.sock_d v).0
            (os.accept f_accept s.listener.sock_d v).1
        → Outcome Good Bad t (xs ++ q ∷ []) r
        → Outcome Good Bad s xs r
    continue s t xs q w r g e here (inl (ys, u, run, a, each)) = inl (
      q ∷ ys,
      u,
      run,
      one_more s t u xs ys q w g e a,
      (here, subst (λ d. Each d Good ys) g.sock_d each),
    )
    continue s t xs q w r g e here (inr (u, run, (v, bad))) = inr (
      u,
      run,
      (v, subst (λ d. Bad (os.accept f_accept d v).0 (os.accept f_accept d v).1 u) g.sock_d bad),
    )

    pub event_loop-IsAccepted :
        (fuel : ℕ) (s : Hub World) (xs : List Ptr)
        → s.listener.protocol ≡ p
        → IsGood s xs
        → pending s.listener.sock_d s.world < fuel
        → Outcome Good Bad s xs (event_loop os f_accept step fuel s)
    unfolding event_loop
    event_loop-IsAccepted zero s xs table g lt = absurd (omega arith)
    event_loop-IsAccepted (suc fuel) s xs table g lt =
        let r = os.accept f_accept s.listener.sock_d s.world in
        let w = r.1 in
        let again = λ (_ : Ptr). event_loop os f_accept step fuel in
        elim (law.answers s.listener.sock_d s.world) [
          | inl (bad, e) ↦
              rw bad (inl ([], record s { world = w }, refl, none_taken s xs _ g e, tt))
          | inr (good, e) ↦
              rw good
                (elim (steps r.0 (record s { world = w }) xs table
                  (record {
                    list = g.list;
                    ids = g.ids;
                    unused = g.unused;
                    not_null = g.not_null;
                  })) [
                    | inl ((q, t, run, grown), fine) ↦
                        subst (Outcome Good Bad s xs)
                          (sym (bind-ok (step r.0) again (record s { world = w }) q t run))
                          (continue s t xs q w (event_loop os f_accept step fuel t) grown e
                            (s.world, fine)
                            (event_loop-IsAccepted fuel t (xs ++ q ∷ []) (grown.protocol ∙ table)
                              grown.good (fewer s t fuel w grown.sock_d grown.pending_left e lt)))
                    | inr (t, run, q) ↦ inr (
                      t,
                      bind-exited (step r.0) again (record s { world = w }) t run,
                      (s.world, q),
                    )
                  ])
        ]

-- An event at the socket of a listener whose list is well formed ends with the answer 0: no
-- pointer is bad, and one round more than connections wait is enough. The list is then well formed
-- with the new sessions at its end, numbered so that its numbers are at most its highest one; as
-- many connections as there are new sessions wait no more, and are counted as active.
pub tb_stream_event-IsAccepted :
    {World : Type 0} (os : Os World) (pending : ℤ → World → ℕ)
    (law : AcceptsPending os accept pending) (fuel : ℕ) (s : Hub World) (xs : List Ptr)
    → IsGood s xs
    → pending s.listener.sock_d s.world < fuel
    → (ys : List Ptr) × (t : Hub World) × (tb_stream_event os fuel s.listener.sock_d s
        ≡ ok (pos 0) t)
      × IsAccepted os accept pending law s xs ys t
unfolding tb_stream_event
tb_stream_event-IsAccepted {World} os pending law fuel s xs g lt =
    let always = λ (_ : ℤ) (_ : World). Unit {0} in
    let never : ℤ → World → Hub World → Type 0 = λ _ _ _. ⊥ in
    rw (same_socket s.listener.sock_d)
      (elim (event_loop-IsAccepted os accept pending law s.listener.protocol always never
        (accept_one os)
        (λ fd t ys table good. inl (accept_one-IsGrown os accept pending law fd t ys good, tt)) fuel
        s xs refl g lt) [
          | inl (ys, t, run, a, _) ↦ (ys, t, run, a)
          | inr (t, run, (v, q)) ↦ absurd q
        ])
