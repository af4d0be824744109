-- ===== src/Udp/Event/Laws.antt =====
-- What one datagram changes in tb_udp_event of src/tb_udp.c.
use fastuserprotocol.Common.{
  ◌+◌, ◌<◌, ◌≤◌, ◌≡◌, ◌≢◌, refl, sym, ap, ◌∙◌, inl, inr, true, false, none, some, List, [], ◌∷◌,
  ◌++◌, arith, ◌==◌, if◌then◌else◌, length, length-append, Bool-cases,
}
use fastuserprotocol.Common.Int.{ℤ, pos, ◌+ℤ◌, pos-add}
use fastuserprotocol.Os.{ok, ◌>>◌, bind-ok}
use fastuserprotocol.Stats.{Ptr, tb_create_stats}
use fastuserprotocol.Session.{TbSession, Store, write, tb_create_session}
use fastuserprotocol.Session.Chain.{has, IsList, Chain-write}
use fastuserprotocol.Session.Laws.{first_with, tb_session_list_search-first_with}
use fastuserprotocol.Session.Counts.{tb_session_add_to-num_active}
use fastuserprotocol.Session.Ledger.{
  ledger, is_in, with_entry, raise, credit, paid, ledger-write, ledger-raise, Chain-rewrite,
  first_with-Found,
}
use fastuserprotocol.Session.Ledger.Added.{tb_session_add_to-ledger}
use fastuserprotocol.Stream.Event.{Hub, sessions_of, with_list}
use fastuserprotocol.Stream.Event.Laws.{unlisted}
use fastuserprotocol.Udp.Event.{
  session_for, new_session, or_new, enlist, link_current, linked, pay, take_part,
}

-- The list of the sessions is well formed, all of them count as active, the addresses from the next
-- one on are unused, and the listener has a session of its own.
pub record IsOpen {World : Type 0} (s : Hub World) (xs : List Ptr) : Type 0 where
  pub list : IsList (sessions_of s.listener s.store) xs
  pub active : s.listener.session_list.num_active_conn ≡ pos (length xs)
  pub unused : (p : Ptr) → s.next ≤ p → s.store p ≡ none
  pub not_null : 0 < s.next
  pub current : (c : TbSession) × (s.listener.curr_session ≡ some c)

-- What an event leaves alone while it counts.
pub record Beside {World : Type 0} (s t : Hub World) : Type 0 where
  pub world : t.world ≡ s.world
  pub sock_d : t.listener.sock_d ≡ s.listener.sock_d
  pub command : t.listener.command ≡ s.listener.command

still_unused :
    (h : Store) (q : Ptr) (c : TbSession) (p : Ptr)
    → h q ≡ some c
    → h p ≡ none
    → (c' : TbSession) → write h q c' p ≡ none
still_unused h q c p at null c' = elim (Bool-cases (q == p)) [
  | inl eq ↦
      let e : q ≡ p = ground arith in
      let both : some c ≡ none = sym at ∙ ap h e ∙ null in absurd (cc)
  | inr off ↦ ap (λ b. if b then some c' else h p) off ∙ null
]

module _ {World : Type 0} where
  -- The session for a number is the first one of the list that has it; the ledger has an entry for
  -- the number then.
  pub record IsFor (s : Hub World) (xs : List Ptr) (id : ℤ) (q : Ptr) (t : Hub World)
      (ys : List Ptr) : Type 0 where
    pub opened : IsOpen t ys
    pub beside : Beside s t
    pub first : first_with t.store id ys ≡ q
    pub ne_null : q ≢ 0
    pub at : (c : TbSession) × (t.store q ≡ some c)
    pub entries : ledger t.store ys ≡ with_entry id (ledger s.store xs)

  module _ (s : Hub World) (xs : List Ptr) (id : ℤ) (i : IsOpen s xs) where
    known_session :
        (q : Ptr) (c : TbSession)
        → first_with s.store id xs ≡ q
        → s.store q ≡ some c
        → q ≢ 0
        → is_in id (ledger s.store xs) ≡ true
        → IsFor s xs id q s xs
    known_session q c first at ne there = record {
      opened = i;
      beside = record { world = refl; sock_d = refl; command = refl };
      first = first;
      ne_null = ne;
      at = (c, at);
      entries =
          sym (
            ap (λ b. if b then ledger s.store xs else ledger s.store xs ++ (id, pos 0) ∷ []) there);
    }

    abbrev made : TbSession
    made = record tb_create_session { id = id }

    new_session-IsFor :
        is_in id (ledger s.store xs) ≡ false
        → (q : Ptr) × (t : Hub World) × (ys : List Ptr) × (new_session id s ≡ ok q t)
          × IsFor s xs id q t ys
    unfolding new_session
    new_session-IsFor absent =
        let h : Store = write s.store s.next made in
        let out : has s.next xs ≡ false =
          unlisted s.store s.next s.listener.session_list.start xs (i.unused s.next (omega arith))
            i.list.chain in
        let same : ledger h xs ≡ ledger s.store xs = ledger-write s.store s.next made xs out in
        let (s', run, list, entries, first, (d, at), unused) =
          tb_session_add_to-ledger (sessions_of s.listener h) xs s.next made tb_create_stats
            (record {
              chain =
                  Chain-write s.store s.next made xs s.listener.session_list.start out i.list.chain;
              distinct = i.list.distinct;
              last = i.list.last;
              count = i.list.count;
            })
            (record {
              ne_null = omega (arith, i.not_null);
              at = ground arith;
              stats = refl;
              n_session = refl;
              n_stats = refl;
            })
            out (ap (is_in id) same ∙ absent) in
        (
          s.next,
          record s { listener = with_list s.listener s'.list; store = s'.store; next = s.next + 1 },
          xs ++ s.next ∷ [],
          ap (enlist s.next s) run,
          record {
            opened = record {
              list = record {
                chain = list.chain;
                distinct = list.distinct;
                last = list.last;
                count = list.count;
              };
              active =
                  ap (λ n. n +ℤ pos 1)
                    (tb_session_add_to-num_active s.next (sessions_of s.listener h) s' run
                      ∙ i.active)
                  ∙ pos-add (length xs) 1
                  ∙ ap pos (sym (length-append xs (s.next ∷ [])));
              unused = λ p le. unused p (
                  let off : (s.next == p) ≡ false = ground arith in
                  rw off (i.unused p (omega arith)));
              not_null = omega arith;
              current = i.current;
            };
            beside = record { world = refl; sock_d = refl; command = refl };
            first = first;
            ne_null = omega (arith, i.not_null);
            at = (d, at);
            entries =
                entries
                ∙ ap (λ v. v ++ (id, pos 0) ∷ []) same
                ∙ sym (
                    ap (λ b. if b then ledger s.store xs else ledger s.store xs ++ (id, pos 0) ∷ [])
                      absent);
          },
        )

    pub session_for-IsFor :
        (q : Ptr) × (t : Hub World) × (ys : List Ptr) × (session_for id s ≡ ok q t)
        × IsFor s xs id q t ys
    unfolding session_for
    session_for-IsFor =
        let found = first_with s.store id xs in
        let search =
          ap (λ r. or_new id r s)
            (tb_session_list_search-first_with (sessions_of s.listener s.store) xs id i.list) in
        elim (first_with-Found s.store s.listener.session_list.start xs id i.list.chain) [
          | inl (c, at, there, ne, known) ↦
              let off : (found == 0) ≡ false = ground arith in
              (
                found,
                s,
                xs,
                search ∙ ap (λ b. if b then new_session id s else ok found s) off,
                known_session found c refl at ne known,
              )
          | inr (null, absent) ↦
              let on : (found == 0) ≡ true = ground arith in
              let (q, t, ys, run, f) = new_session-IsFor absent in
              (q, t, ys, search ∙ ap (λ b. if b then new_session id s else ok found s) on ∙ run, f)
        ]

    -- A datagram with numbers is counted: the entry of its session is raised by what was received.
    pub take_part-IsOpen :
        (rc : ℤ)
        → (t : Hub World) × (ys : List Ptr) × (take_part id rc s ≡ ok tt t)
          × IsOpen t ys
          × Beside s t
          × (ledger t.store ys ≡ credit id rc (ledger s.store xs))
    unfolding take_part
    take_part-IsOpen rc =
        let (q, t, ys, run, f) = session_for-IsFor in
        let (e, cur) = f.opened.current in
        let (c, at) = f.at in
        let u : Hub World = record t {
          listener = record t.listener { curr_session = some (linked q e) };
        } in
        let v : Hub World = record u { store = write t.store q (paid rc c) } in
        (
          v,
          ys,
          bind-ok (session_for id)
                (λ p s'.
                  (link_current p s'.listener.curr_session >> λ t'. pay p rc (t'.store p) t') s')
                s q t run
              ∙ ap (λ o. (link_current q o >> λ t'. pay q rc (t'.store q) t') t) cur
              ∙ ap (λ o. pay q rc o u) at,
          record {
            list = record {
              chain =
                  Chain-rewrite t.store q c (paid rc c) t.listener.session_list.start ys at refl
                    refl f.opened.list.chain;
              distinct = f.opened.list.distinct;
              last = f.opened.list.last;
              count = f.opened.list.count;
            };
            active = f.opened.active;
            unused = λ p le. still_unused t.store q c p at (f.opened.unused p le) (paid rc c);
            not_null = f.opened.not_null;
            current = (linked q e, refl);
          },
          record { world = f.beside.world; sock_d = f.beside.sock_d; command = f.beside.command },
          ledger-raise t.store t.listener.session_list.start ys id rc q c f.opened.list.chain
                f.opened.list.distinct f.first f.ne_null at
              ∙ ap (raise id rc) f.entries,
        )
