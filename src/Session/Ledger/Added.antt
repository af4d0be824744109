-- ===== src/Session/Ledger/Added.antt =====
-- What adding a session, and counting bytes in one, do to the ledger of a list of src/tb_session.c.
use mathlib.Core.Path.{subst}
use fastuserprotocol.Common.{
  ◌≡◌, refl, sym, ap, ◌∙◌, inl, inr, true, false, ◌||◌, Option, none, some, List, [], ◌∷◌, ◌++◌,
  arith, ◌==◌, if◌then◌else◌, Bool-cases, Option-cases,
}
use fastuserprotocol.Common.Int.{ℤ, ◌==ℤ◌}
use fastuserprotocol.Os.{Run, ok}
use fastuserprotocol.Stats.{Ptr, TbProtStats}
use fastuserprotocol.Session.{
  TbSession, Store, Sessions, write, link_to, stats_ptr, append_end, tb_session_add_to,
}
use fastuserprotocol.Session.Chain.{has, Chain, IsList, IsFresh}
use fastuserprotocol.Session.Laws.{first_with, tb_session_add_to-IsList}
use fastuserprotocol.Session.Ledger.{
  entry_at, enter, ledger, is_in, ledger-same, entry_at-write_ne, entry_at-some, first_with-cons,
  is_in-cons,
}

abbrev KeepsEntry : Ptr → Option (ℤ × ℤ) → Run Sessions (Unit {0}) → Type 0
KeepsEntry a e (ok _ s) = entry_at s.store a ≡ e
KeepsEntry a e _ = Unit {0}

entry_at-link :
    (h : Store) (p a : Ptr) (e e' : TbSession)
    → h p ≡ some e
    → e'.id ≡ e.id
    → e'.total_bytes ≡ e.total_bytes
    → entry_at (write h p e') a ≡ entry_at h a
entry_at-link h p a e e' at id total = elim (Bool-cases (p == a)) [
  | inl eq ↦
      let pa : p ≡ a = ground arith in
      entry_at-some (write h p e') a e' (ap (λ b. if b then some e' else h a) eq)
      ∙ ap (λ i. some (i, e'.total_bytes)) id
      ∙ ap (λ n. some (e.id, n)) total
      ∙ sym (entry_at-some h a e (ap h (sym pa) ∙ at))
  | inr off ↦ entry_at-write_ne h p e' a off
]

append_end-KeepsEntry :
    (p : Ptr) (session : TbSession) (s : Sessions) (a : Ptr)
    → KeepsEntry a (entry_at s.store a) (append_end p session s)
unfolding append_end
append_end-KeepsEntry p session s a = elim (Option-cases (s.store s.end)) [
  | inl null ↦ rw (null, KeepsEntry, append_end) tt
  | inr (e, at) ↦ elim (Option-cases e.stats) [
    | inl null ↦ rw (at, null, KeepsEntry, append_end) tt
    | inr (t, st) ↦
        rw (at, st, KeepsEntry, append_end)
          (entry_at-link s.store s.end a e (link_to e t p (stats_ptr p session)) at refl refl)
  ]
]

-- Adding a session changes links only: no session gets another number or other bytes.
tb_session_add_to-KeepsEntry :
    (p : Ptr) (s : Sessions) (a : Ptr) → KeepsEntry a (entry_at s.store a) (tb_session_add_to p s)
unfolding tb_session_add_to
tb_session_add_to-KeepsEntry p s a = elim (Option-cases (s.store p)) [
  | inl null ↦ rw (null, KeepsEntry, tb_session_add_to) tt
  | inr (session, at) ↦ elim (Bool-cases (s.start == 0)) [
    | inl empty ↦ rw (at, empty, KeepsEntry, tb_session_add_to) refl
    | inr more ↦ rw (at, more, KeepsEntry, tb_session_add_to) (append_end-KeepsEntry p session s a)
  ]
]

ledger-append :
    (h : Store) (xs : List Ptr) (q : Ptr) (c : TbSession)
    → h q ≡ some c
    → ledger h (xs ++ q ∷ []) ≡ ledger h xs ++ (c.id, c.total_bytes) ∷ []
ledger-append h [] q c at = ap (λ e. enter e []) (entry_at-some h q c at)
ledger-append h (x ∷ xs) q c at =
    ap (enter (entry_at h x)) (ledger-append h xs q c at) ∙ enter-append (entry_at h x)
  where
    enter-append :
        (e : Option (ℤ × ℤ))
        → enter e (ledger h xs ++ (c.id, c.total_bytes) ∷ [])
          ≡ enter e (ledger h xs) ++ (c.id, c.total_bytes) ∷ []
    enter-append none = refl
    enter-append (some e) = refl

first_with-append :
    (h : Store) (p : Ptr) (xs : List Ptr) (q : Ptr) (c : TbSession) (id : ℤ)
    → Chain h p (xs ++ q ∷ [])
    → h q ≡ some c
    → (c.id ==ℤ id) ≡ true
    → is_in id (ledger h xs) ≡ false
    → first_with h id (xs ++ q ∷ []) ≡ q
first_with-append h p [] q c id ch at hit out =
    first_with-cons h id q [] c at ∙ ap (λ t. if t then q else 0) hit
first_with-append h p (x ∷ xs) q c id (_, _, (b, t, bat, _, _, rest)) at hit out =
    let split : (b.id ==ℤ id || is_in id (ledger h xs)) ≡ false =
      sym (is_in-cons h id x xs b bat) ∙ out in
    let miss : (b.id ==ℤ id) ≡ false = ground arith in
    let out' : is_in id (ledger h xs) ≡ false = ground arith in
    first_with-cons h id x (xs ++ q ∷ []) b bat
    ∙ ap (λ t. if t then x else first_with h id (xs ++ q ∷ [])) miss
    ∙ first_with-append h b.n_session xs q c id rest at hit out'

entry_at-inv :
    (h : Store) (q : Ptr) (e : ℤ × ℤ)
    → entry_at h q ≡ some e
    → (d : TbSession) × (h q ≡ some d) × (d.id ≡ e.0) × (d.total_bytes ≡ e.1)
entry_at-inv h q e at = elim (Option-cases (h q)) [
  | inl null ↦
      let nothing : entry_at h q ≡ none = rw (null, entry_at) refl in
      absurd (none_some e (sym nothing ∙ at))
  | inr (d, dat) ↦
      let same : some (d.id, d.total_bytes) ≡ some e = sym (entry_at-some h q d dat) ∙ at in
      (d, dat, cc, cc)
]
  where
    none_some : (e : ℤ × ℤ) → ¬ (none ≡ some e)
    none_some e p = cc

entry_at-none : (h : Store) (a : Ptr) → entry_at h a ≡ none → h a ≡ none
entry_at-none h a nothing = elim (Option-cases (h a)) [
  | inl null ↦ null
  | inr (d, at) ↦
      let bad : ◌≡◌ {A = Option (ℤ × ℤ)} (some (d.id, d.total_bytes)) none =
        sym (entry_at-some h a d at) ∙ nothing in
      cc
]

-- Adding a session that is fresh, and has received nothing, under a number that has no entry gives
-- it the last entry, at which the number is found.
pub tb_session_add_to-ledger :
    (s : Sessions) (xs : List Ptr) (q : Ptr) (c : TbSession) (t : TbProtStats)
    → IsList s xs
    → IsFresh s.store q c t
    → has q xs ≡ false
    → is_in c.id (ledger s.store xs) ≡ false
    → (s' : Sessions) × (tb_session_add_to q s ≡ ok tt s')
      × IsList s' (xs ++ q ∷ [])
      × (ledger s'.store (xs ++ q ∷ []) ≡ ledger s.store xs ++ (c.id, c.total_bytes) ∷ [])
      × (first_with s'.store c.id (xs ++ q ∷ []) ≡ q)
      × ((d : TbSession) × (s'.store q ≡ some d))
      × ((a : Ptr) → s.store a ≡ none → s'.store a ≡ none)
tb_session_add_to-ledger s xs q c t l f out new =
    let (s', run, list, ids, max) = tb_session_add_to-IsList s xs q c t l f out in
    let kept : (a : Ptr) → entry_at s'.store a ≡ entry_at s.store a =
      λ a. subst (KeepsEntry a (entry_at s.store a)) run (tb_session_add_to-KeepsEntry q s a) in
    let (d, at, id, total) =
      entry_at-inv s'.store q (c.id, c.total_bytes) (kept q ∙ entry_at-some s.store q c f.at) in
    let same : ledger s'.store xs ≡ ledger s.store xs =
      ledger-same s'.store s.store xs (λ a i. kept a) in
    (
      s',
      run,
      list,
      ledger-append s'.store xs q d at
          ∙ ap (λ v. v ++ (d.id, d.total_bytes) ∷ []) same
          ∙ ap (λ i. ledger s.store xs ++ (i, d.total_bytes) ∷ []) id
          ∙ ap (λ n. ledger s.store xs ++ (c.id, n) ∷ []) total,
      first_with-append s'.store s'.start xs q d c.id list.chain at (ground arith)
          (ap (is_in c.id) same ∙ new),
      (d, at),
      λ a null. entry_at-none s'.store a (kept a ∙ rw (null, entry_at) refl),
    )
