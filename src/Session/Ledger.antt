-- ===== src/Session/Ledger.antt =====
-- What the sessions of a list of src/tb_session.c have received: the number of each with its bytes,
-- in the order of the list, whatever their addresses.
pub mod Added
use mathlib.Core.Path.{subst}
use fastuserprotocol.Common.{
  ℕ, ◌≡◌, ◌≢◌, refl, sym, ap, ◌∙◌, inl, inr, Bool, true, false, ◌||◌, ◌⊎◌, Option, none, some, List,
  [], ◌∷◌, ◌++◌, arith, ◌==◌, if◌then◌else◌, Bool-cases,
}
use fastuserprotocol.Common.Int.{ℤ, pos, ◌+ℤ◌, ◌==ℤ◌}
use fastuserprotocol.Os.{Run, ok}
use fastuserprotocol.Stats.{Ptr, TbProtStats}
use fastuserprotocol.Session.{TbSession, Store, Sessions, write, append_end, tb_session_add_to}
use fastuserprotocol.Session.Chain.{has, IsDistinct, Chain, IsList}
use fastuserprotocol.Session.Laws.{first_with}

abbrev pub Ledger : Type 0
Ledger = List (ℤ × ℤ)

abbrev pub entry_at : Store → Ptr → Option (ℤ × ℤ)
entry_at h p = elim (h p) [ none ↦ none | some c ↦ some (c.id, c.total_bytes) ]

abbrev pub enter : Option (ℤ × ℤ) → Ledger → Ledger
enter none v = v
enter (some e) v = e ∷ v

abbrev pub ledger : Store → List Ptr → Ledger
ledger h [] = []
ledger h (x ∷ xs) = enter (entry_at h x) (ledger h xs)

abbrev pub is_in : ℤ → Ledger → Bool
is_in id [] = false
is_in id ((i, n) ∷ v) = i ==ℤ id || is_in id v

-- A number that has no entry gets one.
abbrev pub with_entry : ℤ → Ledger → Ledger
with_entry id v = if is_in id v then v else v ++ (id, pos 0) ∷ []

-- The first entry of the number is raised.
abbrev pub raise : ℤ → ℤ → Ledger → Ledger
raise id n [] = []
raise id n ((i, k) ∷ v) = if i ==ℤ id then (i, k +ℤ n) ∷ v else (i, k) ∷ raise id n v

abbrev pub credit : ℤ → ℤ → Ledger → Ledger
credit id n v = raise id n (with_entry id v)

-- Two stores that hold the same entries give the same ledger, and the same first session.
pub ledger-same :
    (g h : Store) (xs : List Ptr)
    → ((a : Ptr) → has a xs ≡ true → entry_at g a ≡ entry_at h a)
    → ledger g xs ≡ ledger h xs
ledger-same g h [] same = refl
ledger-same g h (x ∷ xs) same =
    ap (λ e. enter e (ledger g xs)) (same x (ground arith))
    ∙ ap (enter (entry_at h x)) (ledger-same g h xs (λ a i. same a (ground arith)))

pub entry_at-some :
    (h : Store) (x : Ptr) (c : TbSession) → h x ≡ some c → entry_at h x ≡ some (c.id, c.total_bytes)
entry_at-some h x c at = rw (at, entry_at) refl

entry_at-write_self :
    (h : Store) (q : Ptr) (c : TbSession) → entry_at (write h q c) q ≡ some (c.id, c.total_bytes)
entry_at-write_self h q c =
    let on : (q == q) ≡ true = ground arith in
    entry_at-some (write h q c) q c (ap (λ b. if b then some c else h q) on)

pub entry_at-write_ne :
    (h : Store) (q : Ptr) (c : TbSession) (a : Ptr)
    → (q == a) ≡ false
    → entry_at (write h q c) a ≡ entry_at h a
entry_at-write_ne h q c a off = rw (off, entry_at) refl

-- A write outside a list leaves its ledger.
pub ledger-write :
    (h : Store) (q : Ptr) (c : TbSession) (xs : List Ptr)
    → has q xs ≡ false
    → ledger (write h q c) xs ≡ ledger h xs
ledger-write h q c [] out = refl
ledger-write h q c (x ∷ xs) out =
    ap (λ e. enter e (ledger (write h q c) xs)) (entry_at-write_ne h q c x (ground arith))
    ∙ ap (enter (entry_at h x)) (ledger-write h q c xs (ground arith))

-- `c` with `n` bytes more.
abbrev pub paid : ℤ → TbSession → TbSession
paid n c = record c { total_bytes = c.total_bytes +ℤ n }

raise-hit :
    (h : Store) (x : Ptr) (xs : List Ptr) (id n : ℤ) (c : TbSession)
    → has x xs ≡ false
    → h x ≡ some c
    → (c.id ==ℤ id) ≡ true
    → ledger (write h x (paid n c)) (x ∷ xs) ≡ raise id n (ledger h (x ∷ xs))
raise-hit h x xs id n c out at hit =
    ap (λ e. enter e (ledger (write h x (paid n c)) xs)) (entry_at-write_self h x (paid n c))
    ∙ ap (◌∷◌ (c.id, c.total_bytes +ℤ n)) (ledger-write h x (paid n c) xs out)
    ∙ sym (
        ap
          (λ b.
            if b
            then (c.id, c.total_bytes +ℤ n) ∷ ledger h xs
            else (c.id, c.total_bytes) ∷ raise id n (ledger h xs))
          hit)
    ∙ sym (ap (λ e. raise id n (enter e (ledger h xs))) (entry_at-some h x c at))

raise-miss :
    (h g : Store) (x : Ptr) (xs : List Ptr) (id n : ℤ) (b : TbSession)
    → entry_at g x ≡ entry_at h x
    → h x ≡ some b
    → (b.id ==ℤ id) ≡ false
    → ledger g xs ≡ raise id n (ledger h xs)
    → ledger g (x ∷ xs) ≡ raise id n (ledger h (x ∷ xs))
raise-miss h g x xs id n b same at miss rest =
    ap (λ e. enter e (ledger g xs)) (same ∙ entry_at-some h x b at)
    ∙ ap (◌∷◌ (b.id, b.total_bytes)) rest
    ∙ sym (
        ap
          (λ t.
            if t
            then (b.id, b.total_bytes +ℤ n) ∷ ledger h xs
            else (b.id, b.total_bytes) ∷ raise id n (ledger h xs))
          miss)
    ∙ sym (ap (λ e. raise id n (enter e (ledger h xs))) (entry_at-some h x b at))

pub first_with-cons :
    (h : Store) (id : ℤ) (x : Ptr) (xs : List Ptr) (b : TbSession)
    → h x ≡ some b
    → first_with h id (x ∷ xs) ≡ (if b.id ==ℤ id then x else first_with h id xs)
first_with-cons h id x xs b at = rw (at, first_with) refl

pub is_in-cons :
    (h : Store) (id : ℤ) (x : Ptr) (xs : List Ptr) (b : TbSession)
    → h x ≡ some b
    → is_in id (ledger h (x ∷ xs)) ≡ (b.id ==ℤ id || is_in id (ledger h xs))
is_in-cons h id x xs b at = ap (λ e. is_in id (enter e (ledger h xs))) (entry_at-some h x b at)

-- The session `q` is the first one with the number, or `q` is null and no entry has the number.
abbrev pub Found : Store → List Ptr → ℤ → Ptr → Type 0
Found h xs id q =
    ((c : TbSession) × (h q ≡ some c)
      × (has q xs ≡ true)
      × (q ≢ 0)
      × (is_in id (ledger h xs) ≡ true))
    ⊎ ((q ≡ 0) × (is_in id (ledger h xs) ≡ false))

pub first_with-Found :
    (h : Store) (p : Ptr) (xs : List Ptr) (id : ℤ)
    → Chain h p xs
    → Found h xs id (first_with h id xs)
first_with-Found h p [] id ch = inr (refl, refl)
first_with-Found h p (x ∷ xs) id (e, ne, (b, t, at, st, same, rest)) =
    elim (Bool-cases (b.id ==ℤ id)) [
      | inl hit ↦
          subst (Found h (x ∷ xs) id)
            (sym
              (first_with-cons h id x xs b at ∙ ap (λ t. if t then x else first_with h id xs) hit))
            (inl (
              b,
              at,
              ground arith,
              ne,
              is_in-cons h id x xs b at ∙ ap (λ t. t || is_in id (ledger h xs)) hit,
            ))
      | inr miss ↦
          let entries : is_in id (ledger h (x ∷ xs)) ≡ is_in id (ledger h xs) =
            is_in-cons h id x xs b at ∙ ap (λ t. t || is_in id (ledger h xs)) miss in
          subst (Found h (x ∷ xs) id)
            (sym
              (first_with-cons h id x xs b at ∙ ap (λ t. if t then x else first_with h id xs) miss))
            (elim (first_with-Found h b.n_session xs id rest) [
              | inl (c, cat, i, nn, l) ↦ inl (c, cat, ground arith, nn, entries ∙ l)
              | inr (z, l) ↦ inr (z, entries ∙ l)
            ])
    ]

apart : (q x : Ptr) (xs : List Ptr) → has q xs ≡ true → has x xs ≡ false → (q == x) ≡ false
apart q x xs i out = elim (Bool-cases (q == x)) [
  | inl eq ↦
      let e : q ≡ x = ground arith in
      let no_way : true ≡ false = sym i ∙ ap (λ r. has r xs) e ∙ out in cc
  | inr ne ↦ ne
]

-- What a session counts more shows in its entry alone.
pub ledger-raise :
    (h : Store) (p : Ptr) (xs : List Ptr) (id n : ℤ) (q : Ptr) (c : TbSession)
    → Chain h p xs
    → IsDistinct xs
    → first_with h id xs ≡ q
    → q ≢ 0
    → h q ≡ some c
    → ledger (write h q (paid n c)) xs ≡ raise id n (ledger h xs)
ledger-raise h p [] id n q c ch d first nn at = absurd (nn (sym first))
ledger-raise h p (x ∷ xs) id n q c (_, _, (b, t, bat, _, _, rest)) d first nn at =
    elim (Bool-cases (b.id ==ℤ id)) [
      | inl hit ↦
          let e : x ≡ q = ground (arith, first_with-cons h id x xs b bat) in
          let at' : h x ≡ some c = ground arith in
          let hit' : (c.id ==ℤ id) ≡ true = ground arith in
          subst (λ r. ledger (write h r (paid n c)) (x ∷ xs) ≡ raise id n (ledger h (x ∷ xs))) e
            (raise-hit h x xs id n c d.0 at' hit')
      | inr miss ↦
          let first' : first_with h id xs ≡ q = ground (arith, first_with-cons h id x xs b bat) in
          let inside : has q xs ≡ true = elim (first_with-Found h b.n_session xs id rest) [
            | inl (_, _, i, _, _) ↦ subst (λ r. has r xs ≡ true) first' i
            | inr (z, _) ↦ absurd (nn (sym first' ∙ z))
          ] in
          let off : (q == x) ≡ false = apart q x xs inside d.0 in
          raise-miss h (write h q (paid n c)) x xs id n b (entry_at-write_ne h q (paid n c) x off)
            bat miss (ledger-raise h b.n_session xs id n q c rest d.1 first' nn at)
    ]

-- The links of a chain survive a write that keeps those of the session.
pub Chain-rewrite :
    (h : Store) (q : Ptr) (c c' : TbSession) (p : Ptr) (xs : List Ptr)
    → h q ≡ some c
    → c'.n_session ≡ c.n_session
    → c'.stats ≡ c.stats
    → Chain h p xs
    → Chain (write h q c') p xs
Chain-rewrite h q c c' p [] at link st ch = ch
Chain-rewrite h q c c' p (x ∷ xs) at link st (e, ne, (b, t, bat, bst, same, rest)) =
    let again = Chain-rewrite h q c c' b.n_session xs at link st rest in
    elim (Bool-cases (q == x)) [
      | inl eq ↦
          let qx : q ≡ x = ground arith in
          let bc : c'.n_session ≡ b.n_session = ground arith in
          (
            e,
            ne,
            (
              c',
              t,
              ap (λ b. if b then some c' else h x) eq,
              ground arith,
              ground arith,
              subst (λ r. Chain (write h q c') r xs) (sym bc) again,
            ),
          )
      | inr off ↦ (e, ne, (b, t, ap (λ b. if b then some c' else h x) off ∙ bat, bst, same, again))
    ]
