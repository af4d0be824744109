-- ===== src/Session/Chain.antt =====
-- The links between the sessions of src/tb_session.c, as a sequence of addresses.
use fastuserprotocol.Common.{
  ◌≡◌, ◌≢◌, refl, Bool, true, false, ◌||◌, some, List, [], ◌∷◌, ◌++◌, arith, ◌==◌, length,
}
use fastuserprotocol.Stats.{Ptr, TbProtStats}
use fastuserprotocol.Session.{TbSession, Store, Sessions, write, link_to}

abbrev pub has : Ptr → List Ptr → Bool
has p [] = false
has p (x ∷ xs) = (p == x) || has p xs

abbrev pub IsDistinct : List Ptr → Type 0
IsDistinct [] = Unit {0}
IsDistinct (x ∷ xs) = (has x xs ≡ false) × IsDistinct xs

abbrev pub last_or : Ptr → List Ptr → Ptr
last_or d [] = d
last_or d (x ∷ xs) = last_or x xs

-- From `p` the sessions lead through the addresses `xs` to null, and their statistics are linked
-- in the same order.
abbrev pub Chain : Store → Ptr → List Ptr → Type 0
Chain h p [] = p ≡ 0
Chain h p (x ∷ xs) =
    (p ≡ x)
    × (x ≢ 0)
    × ((c : TbSession) × (t : TbProtStats) × (h x ≡ some c)
        × (c.stats ≡ some t)
        × (t.n_stats ≡ c.n_session)
        × Chain h c.n_session xs)

pub record IsList (s : Sessions) (xs : List Ptr) : Type 0 where
  pub chain : Chain s.store s.start xs
  pub distinct : IsDistinct xs
  pub last : s.end ≡ last_or s.end xs
  pub count : s.num_sessions ≡ length xs

-- A chain survives a write to an address outside it.
pub Chain-write :
    (h : Store) (q : Ptr) (s : TbSession) (xs : List Ptr) (p : Ptr)
    → has q xs ≡ false
    → Chain h p xs
    → Chain (write h q s) p xs
Chain-write h q s [] p out c = c
Chain-write h q s (x ∷ xs) p out (e, ne, (c, t, at, st, same, rest)) =
    (e, ne, (c, t, ground arith, st, same, Chain-write h q s xs c.n_session (ground arith) rest))

has-last : (y : Ptr) (ys : List Ptr) → has (last_or y ys) (y ∷ ys) ≡ true
has-last y [] = ground arith
has-last y (z ∷ zs) = ground (arith, has-last z zs)

-- An allocated session that is linked to nothing yet, with its statistics.
pub record IsFresh (h : Store) (q : Ptr) (c : TbSession) (t : TbProtStats) : Type 0 where
  pub ne_null : q ≢ 0
  pub at : h q ≡ some c
  pub stats : c.stats ≡ some t
  pub n_session : c.n_session ≡ 0
  pub n_stats : t.n_stats ≡ 0

pub Chain-last :
    (h : Store) (p x : Ptr) (xs : List Ptr)
    → Chain h p (x ∷ xs)
    → (e : TbSession) × (t : TbProtStats) × (h (last_or x xs) ≡ some e) × (e.stats ≡ some t)
Chain-last h p x [] (_, _, (c, t, at, st, _, _)) = (c, t, at, st)
Chain-last h p x (y ∷ ys) (_, _, (c, _, _, _, _, rest)) = Chain-last h c.n_session y ys rest

pub single-Chain :
    (h : Store) (q : Ptr) (c : TbSession) (t : TbProtStats) → IsFresh h q c t → Chain h q (q ∷ [])
single-Chain h q c t f = (refl, f.ne_null, (c, t, f.at, f.stats, ground arith, f.n_session))

-- Linking a fresh session behind the last one makes the chain longer by it.
pub Chain-link :
    (h : Store) (q : Ptr) (c : TbSession) (t : TbProtStats) (e : TbSession) (u : TbProtStats)
    (p x : Ptr) (xs : List Ptr)
    → IsFresh h q c t
    → IsDistinct (x ∷ xs)
    → has q (x ∷ xs) ≡ false
    → h (last_or x xs) ≡ some e
    → Chain h p (x ∷ xs)
    → Chain (write h (last_or x xs) (link_to e u q q)) p ((x ∷ xs) ++ q ∷ [])
Chain-link h q c t e u p x [] f d out at (eq, ne, _) = (
  eq,
  ne,
  (
    link_to e u q q,
    record u { n_stats = q },
    ground arith,
    refl,
    refl,
    single-Chain (write h x (link_to e u q q)) q c t (record {
      ne_null = f.ne_null;
      at = ground (arith, f.at);
      stats = f.stats;
      n_session = f.n_session;
      n_stats = f.n_stats;
    }),
  ),
)
Chain-link h q c t e u p x (y ∷ ys) f d out at (eq, ne, (b, v, bat, st, same, rest)) = (
  eq,
  ne,
  (
    b,
    v,
    ground (arith, has-last y ys),
    st,
    same,
    Chain-link h q c t e u b.n_session y ys f d.1 (ground arith) at rest,
  ),
)

has-append : (x : Ptr) (xs : List Ptr) (q : Ptr) → has x (xs ++ q ∷ []) ≡ (has x xs || x == q)
has-append x [] q = ground arith
has-append x (y ∷ ys) q = ground (arith, has-append x ys q)

pub IsDistinct-append :
    (xs : List Ptr) (q : Ptr) → IsDistinct xs → has q xs ≡ false → IsDistinct (xs ++ q ∷ [])
IsDistinct-append [] q d out = (refl, tt)
IsDistinct-append (x ∷ xs) q d out =
    (ground (arith, has-append x xs q), IsDistinct-append xs q d.1 (ground arith))

pub last-append : (d : Ptr) (xs : List Ptr) (q : Ptr) → last_or d (xs ++ q ∷ []) ≡ q
last-append d [] q = refl
last-append d (x ∷ xs) q = last-append x xs q
