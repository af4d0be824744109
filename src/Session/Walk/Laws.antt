-- ===== src/Session/Walk/Laws.antt =====
-- What a loop over the sessions of src/tb_session.c comes to.
use fastuserprotocol.Common.{
  ℕ, zero, suc, ◌<◌, ◌≡◌, refl, false, Option, some, List, [], ◌∷◌, arith, length, sym, ◌∙◌,
}
use fastuserprotocol.Os.{Run, ok}
use fastuserprotocol.Stats.{Ptr, TbProtStats}
use fastuserprotocol.Session.{TbSession, Store, write}
use fastuserprotocol.Session.Chain.{has, IsDistinct, Chain, Chain-write}
use fastuserprotocol.Session.Walk.{each_session}

-- Each session of the list has the property `R`.
abbrev pub AllIn : (TbSession → Type 0) → Store → List Ptr → Type 0
AllIn R h [] = Unit {0}
AllIn R h (x ∷ xs) = ((c : TbSession) × (h x ≡ some c) × R c) × AllIn R h xs

AllIn-write :
    (R : TbSession → Type 0) (h : Store) (q : Ptr) (s : TbSession) (xs : List Ptr)
    → has q xs ≡ false
    → AllIn R h xs
    → AllIn R (write h q s) xs
AllIn-write R h q s [] out a = tt
AllIn-write R h q s (x ∷ xs) out ((c, at, r), a) =
    ((c, ground arith, r), AllIn-write R h q s xs (ground arith) a)

-- A body that works on each session with `R`, keeps its links, and relates by `Q` the session and
-- the state before it to those after it.
abbrev pub Works :
    {S : Type 0}
    → (TbSession → Type 0)
    → (TbSession → S → TbSession → S → Type 0)
    → (TbSession → S → Option (TbSession × S))
    → Type 0
Works {S} R Q f =
    (c : TbSession) (t : TbProtStats) (s : S)
    → R c
    → c.stats ≡ some t
    → (c' : TbSession) × (t' : TbProtStats) × (s' : S) × (f c s ≡ some (c', s'))
      × (c'.n_session ≡ c.n_session)
      × (c'.stats ≡ some t')
      × (t'.n_stats ≡ t.n_stats)
      × Q c s c' s'

-- The body was run on each session of a list in order, once.
abbrev pub Walked :
    {S : Type 0}
    → (TbSession → S → TbSession → S → Type 0)
    → Store
    → Store
    → List Ptr
    → S
    → S
    → Type 0
Walked Q h g [] s s' = s' ≡ s
Walked {S} Q h g (x ∷ xs) s s' =
    (c : TbSession) × (c' : TbSession) × (m : S) × (h x ≡ some c)
    × (g x ≡ some c')
    × Q c s c' m
    × Walked Q h g xs m s'

-- A write outside the list before the walk changes nothing in it.
Walked-write :
    {S : Type 0} (Q : TbSession → S → TbSession → S → Type 0) (h g : Store) (q : Ptr)
    (b : TbSession) (xs : List Ptr) (s s' : S)
    → has q xs ≡ false
    → Walked Q (write h q b) g xs s s'
    → Walked Q h g xs s s'
Walked-write Q h g q b [] s s' out w = w
Walked-write Q h g q b (x ∷ xs) s s' out (c, c', m, at, gat, r, w) =
    (c, c', m, ground arith, gat, r, Walked-write Q h g q b xs m s' (ground arith) w)

-- What the store is after a walk: it differs only at the list, which is still a chain.
abbrev pub Outcome :
    {S : Type 0}
    → (TbSession → S → TbSession → S → Type 0)
    → Store
    → Ptr
    → List Ptr
    → S
    → Run (Unit {0}) (Store × S)
    → Type 0
Outcome {S} Q h p xs s r =
    (g : Store) × (s' : S) × (r ≡ ok (g, s') tt)
    × Chain g p xs
    × ((q : Ptr) → has q xs ≡ false → g q ≡ h q)
    × Walked Q h g xs s s'

pub each_session-Walked :
    {S : Type 0} (R : TbSession → Type 0) (Q : TbSession → S → TbSession → S → Type 0)
    (f : TbSession → S → Option (TbSession × S))
    → Works R Q f
    → (fuel : ℕ) (h : Store) (p : Ptr) (xs : List Ptr) (s : S) → length xs < fuel
    → Chain h p xs
    → IsDistinct xs
    → AllIn R h xs
    → Outcome Q h p xs s (each_session fuel f p h s)
unfolding each_session
each_session-Walked R Q f works zero h p xs s lt c d a = absurd (omega arith)
each_session-Walked R Q f works (suc fuel) h p [] s lt c d a =
    (h, s, ground arith, c, (λ q out. refl), refl)
each_session-Walked {S} R Q f works (suc fuel) h p (x ∷ xs) s lt (e, ne, (c, t, at, st, same, rest))
      d ((b, bat, r), a) =
    step (works c t s (ground (arith, r)) st)
      (λ g m ch al. each_session-Walked R Q f works fuel g c.n_session xs m (omega arith) ch d.1 al)
  where
    step :
        (c' : TbSession) × (t' : TbProtStats) × (m : S) × (f c s ≡ some (c', m))
          × (c'.n_session ≡ c.n_session)
          × (c'.stats ≡ some t')
          × (t'.n_stats ≡ t.n_stats)
          × Q c s c' m
        → ((g : Store) (m : S)
            → Chain g c.n_session xs
            → AllIn R g xs
            → Outcome Q g c.n_session xs m (each_session fuel f c.n_session g m))
        → Outcome Q h p (x ∷ xs) s (each_session (suc fuel) f p h s)
    step (c', t', m, run, link, st', link', q) again =
        let (g, s', run', chain, outside, walked) =
          again (write h x c') m (Chain-write h x c' xs c.n_session d.0 rest)
            (AllIn-write R h x c' xs d.0 a) in
        let at' : g x ≡ some c' = outside x d.0 ∙ (ground arith) in
        (
          g,
          s',
          ground (arith, at, run, link, run'),
          (e, ne, (c', t', at', st', link' ∙ same ∙ sym link, rw link chain)),
          (λ y out. outside y (ground arith) ∙ ground arith),
          (c, c', m, at, at', q, Walked-write Q h g x c' xs m s' d.0 walked),
        )
