-- ===== src/Session/Laws.antt =====
-- What the list of src/tb_session.c keeps and finds.
use fastuserprotocol.Common.{
  ℕ, zero, suc, ◌+◌, ◌<◌, ◌≡◌, ◌≢◌, refl, sym, ap, ◌∙◌, true, false, Option, none, some, List, [],
  ◌∷◌, ◌++◌, arith, ◌==◌, if◌then◌else◌, length, length-append, Bool-cases, inl, inr,
}
use fastuserprotocol.Common.Int.{ℤ, pos, ◌+ℤ◌, ◌==ℤ◌, ◌≤ℤ◌, +ℤ_parts, int_laws}
use fastuserprotocol.Os.{ok}
use fastuserprotocol.Stats.{Ptr, TbProtStats}
use fastuserprotocol.Session.{
  TbSession, Store, Sessions, write, link_to, search_from, added, tb_session_add_to, tb_session_add,
  tb_session_list_search,
}
use fastuserprotocol.Session.Chain.{
  has, last_or, Chain, IsList, IsFresh, Chain-write, Chain-last, Chain-link, single-Chain,
  IsDistinct-append, last-append,
}

-- The first session of a chain with a given number, or null.
abbrev pub first_with : Store → ℤ → List Ptr → Ptr
first_with h id [] = 0
first_with h id (x ∷ xs) = elim (h x) [
  | none ↦ 0
  | some c ↦ if c.id ==ℤ id then x else first_with h id xs
]

search_from_lem :
    (fuel : ℕ) (h : Store) (id : ℤ) (p : Ptr) (xs : List Ptr)
    → length xs < fuel
    → Chain h p xs
    → search_from fuel h id p ≡ ok (first_with h id xs) tt
unfolding search_from
search_from_lem zero h id p xs lt c = absurd (omega arith)
search_from_lem (suc fuel) h id p [] lt c = ground arith
search_from_lem (suc fuel) h id p (x ∷ xs) lt (e, ne, (c, t, at, st, same, rest)) =
    ground (arith, search_from_lem fuel h id c.n_session xs (omega arith) rest)

-- A search of a well-formed list ends, reads no bad pointer, and answers the first session that
-- has the number, or null if none has it.
pub tb_session_list_search-first_with :
    (s : Sessions) (xs : List Ptr) (id : ℤ)
    → IsList s xs
    → tb_session_list_search s id ≡ ok (first_with s.store id xs) tt
unfolding tb_session_list_search
tb_session_list_search-first_with s xs id l =
    search_from_lem (s.num_sessions + 1) s.store id s.start xs (omega (arith, l.count)) l.chain

abbrev pub id_at : Store → Ptr → Option ℤ
id_at h p = elim (h p) [ none ↦ none | some c ↦ some c.id ]

-- A write that keeps the number of a session changes no number.
id_at-write :
    (h : Store) (p : Ptr) (e e' : TbSession)
    → h p ≡ some e
    → e'.id ≡ e.id
    → (a : Ptr) → id_at (write h p e') a ≡ id_at h a
id_at-write h p e e' at same a = elim (Bool-cases (p == a)) [
  | inl eq ↦
      let pa : p ≡ a = ground arith in
      let at' : h a ≡ some e = rw (← pa) at in rw (eq, at', id_at) (ap some same)
  | inr ne ↦ rw (ne, id_at) refl
]

pub id_at-write_ne :
    (h : Store) (p : Ptr) (e : TbSession) (a : Ptr) → a ≢ p → id_at (write h p e) a ≡ id_at h a
id_at-write_ne h p e a ne = let off : (p == a) ≡ false = ground arith in rw (off, id_at) refl

id_at-write_self : (h : Store) (p : Ptr) (e : TbSession) → id_at (write h p e) p ≡ some e.id
id_at-write_self h p e = let on : (p == p) ≡ true = ground arith in rw (on, id_at) refl

-- Adding a fresh session to a well-formed list that it is not in succeeds, and gives the
-- well-formed list that has it at the end, its statistics linked too; no session gets another
-- number, and the highest number stays.
pub tb_session_add_to-IsList :
    (s : Sessions) (xs : List Ptr) (q : Ptr) (c : TbSession) (t : TbProtStats)
    → IsList s xs
    → IsFresh s.store q c t
    → has q xs ≡ false
    → (s' : Sessions) × (tb_session_add_to q s ≡ ok tt s')
      × IsList s' (xs ++ q ∷ [])
      × ((a : Ptr) → id_at s'.store a ≡ id_at s.store a)
      × (s'.current_max_id ≡ s.current_max_id)
unfolding tb_session_add_to
tb_session_add_to-IsList s [] q c t l f out = (
  record s { list = added s.list q q },
  ground (arith, f.at, l.chain),
  record {
    chain = single-Chain s.store q c t f;
    distinct = (refl, tt);
    last = refl;
    count = ground (arith, l.count);
  },
  λ a. refl,
  refl,
)
tb_session_add_to-IsList s (x ∷ xs) q c t l f out =
    let (e, u, at, st) = Chain-last s.store s.start x xs l.chain in
    let at' : s.store s.end ≡ some e = rw l.last at in
    (
      record {
        list = added s.list s.start q;
        store = write s.store (last_or x xs) (link_to e u q q);
      },
      rw (← l.last) (ground (arith, f.at, f.stats, at', st, l.chain)),
      record {
        chain = Chain-link s.store q c t e u s.start x xs f l.distinct out at l.chain;
        distinct = IsDistinct-append (x ∷ xs) q l.distinct out;
        last = sym (last-append x xs q);
        count = omega (arith, l.count, length-append xs (q ∷ []));
      },
      id_at-write s.store (last_or x xs) e (link_to e u q q) at refl,
      refl,
    )

-- The numbers in use are at most `m`.
abbrev pub IdsLe : Store → ℤ → List Ptr → Type 0
IdsLe h m [] = Unit {0}
IdsLe h m (x ∷ xs) = ((i : ℤ) → id_at h x ≡ some i → i ≤ℤ m) × IdsLe h m xs

-- The numbers of a list carry over to a store that gives its sessions the same.
pub IdsLe-transfer :
    (h g : Store) (m n : ℤ) (xs : List Ptr) (q : Ptr)
    → has q xs ≡ false
    → m ≤ℤ n
    → ((a : Ptr) → a ≢ q → id_at g a ≡ id_at h a)
    → IdsLe h m xs
    → IdsLe g n xs
IdsLe-transfer h g m n [] q out le same b = tt
IdsLe-transfer h g m n (x ∷ xs) q out le same b = (
  λ i e. let le' : i ≤ℤ m = b.0 i (sym (same x (ground arith)) ∙ e) in omega arith,
  IdsLe-transfer h g m n xs q (ground arith) le same b.1,
)

IdsLe-append :
    (h : Store) (m : ℤ) (xs : List Ptr) (q : Ptr)
    → IdsLe h m xs
    → ((i : ℤ) → id_at h q ≡ some i → i ≤ℤ m)
    → IdsLe h m (xs ++ q ∷ [])
IdsLe-append h m [] q b f = (f, tt)
IdsLe-append h m (x ∷ xs) q b f = (b.0, IdsLe-append h m xs q b.1 f)

first_with-fresh :
    (h : Store) (m : ℤ) (xs : List Ptr) (q : Ptr) (p : Ptr)
    → Chain h p (xs ++ q ∷ [])
    → IdsLe h m xs
    → id_at h q ≡ some (m +ℤ pos 1)
    → first_with h (m +ℤ pos 1) (xs ++ q ∷ []) ≡ q
first_with-fresh h m [] q p (_, _, (d, t, dat, _, _, _)) b e = ground arith
first_with-fresh h m (x ∷ xs) q p (_, _, (d, t, dat, _, _, rest)) b e =
    ground (arith, first_with-fresh h m xs q d.n_session rest b.1 e, b.0 d.id, +ℤ_parts m (pos 1))

-- What a list that has just got the session `q`, numbered one above `m`, answers.
search-new :
    (s : Sessions) (h : Store) (m : ℤ) (xs : List Ptr) (q : Ptr)
    → IsList s (xs ++ q ∷ [])
    → has q xs ≡ false
    → id_at s.store q ≡ some (m +ℤ pos 1)
    → ((a : Ptr) → a ≢ q → id_at s.store a ≡ id_at h a)
    → IdsLe h m xs
    → IdsLe s.store (m +ℤ pos 1) (xs ++ q ∷ []) × (tb_session_list_search s (m +ℤ pos 1) ≡ ok q tt)
search-new s h m xs q list out new same b = (
  IdsLe-append s.store (m +ℤ pos 1) xs q
      (IdsLe-transfer h s.store m (m +ℤ pos 1) xs q out (omega int_laws) same b)
      (λ i e. let same_id : some (m +ℤ pos 1) ≡ some i = sym new ∙ e in ground arith),
  tb_session_list_search-first_with s (xs ++ q ∷ []) (m +ℤ pos 1) list
      ∙ ap (λ r. ok r tt)
          (first_with-fresh s.store m xs q s.start list.chain
            (IdsLe-transfer h s.store m m xs q out (omega arith) same b) new),
)

-- Adding a fresh session to a well-formed list whose numbers are at most its highest number gives
-- the session the next number, keeps the list well formed with its numbers at most its highest
-- one, and a search for the new number then finds the new session.
pub tb_session_add-search :
    (s : Sessions) (xs : List Ptr) (q : Ptr) (c : TbSession) (t : TbProtStats)
    → IsList s xs
    → IsFresh s.store q c t
    → has q xs ≡ false
    → IdsLe s.store s.current_max_id xs
    → (s' : Sessions) × (tb_session_add q s ≡ ok tt s')
      × IsList s' (xs ++ q ∷ [])
      × (s'.current_max_id ≡ s.current_max_id +ℤ pos 1)
      × IdsLe s'.store s'.current_max_id (xs ++ q ∷ [])
      × (tb_session_list_search s' (s.current_max_id +ℤ pos 1) ≡ ok q tt)
unfolding tb_session_add
tb_session_add-search s xs q c t l f out b =
    finish (tb_session_add_to-IsList numbered xs q c' t l' f' out)
  where
    m : ℤ
    m = s.current_max_id

    c' : TbSession
    c' = record c { id = m +ℤ pos 1 }

    numbered : Sessions
    numbered = record {
      list = record s.list { current_max_id = m +ℤ pos 1 };
      store = write s.store q c';
    }

    l' : IsList numbered xs
    l' = record {
      chain = Chain-write s.store q c' xs s.start out l.chain;
      distinct = l.distinct;
      last = l.last;
      count = l.count;
    }

    f' : IsFresh numbered.store q c' t
    f' = record {
      ne_null = f.ne_null;
      at = ground arith;
      stats = f.stats;
      n_session = f.n_session;
      n_stats = f.n_stats;
    }

    finish :
        (s' : Sessions) × (tb_session_add_to q numbered ≡ ok tt s')
          × IsList s' (xs ++ q ∷ [])
          × ((a : Ptr) → id_at s'.store a ≡ id_at numbered.store a)
          × (s'.current_max_id ≡ m +ℤ pos 1)
        → (s' : Sessions) × (tb_session_add q s ≡ ok tt s')
          × IsList s' (xs ++ q ∷ [])
          × (s'.current_max_id ≡ m +ℤ pos 1)
          × IdsLe s'.store s'.current_max_id (xs ++ q ∷ [])
          × (tb_session_list_search s' (m +ℤ pos 1) ≡ ok q tt)
    finish (s', run, list, ids, max) =
        let new : id_at s'.store q ≡ some (m +ℤ pos 1) = ids q ∙ id_at-write_self s.store q c' in
        let (le, found) =
          search-new s' s.store m xs q list out new
            (λ a ne. ids a ∙ id_at-write_ne s.store q c' a ne) b in
        (s', rw (f.at, tb_session_add) run, list, max, rw max le, found)
