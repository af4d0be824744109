-- ===== src/Udp/Event/Headers.antt =====
-- What the account of tb_udp_event of src/tb_udp.c comes to for each number.
use mathlib.Core.Path.{subst}
use fastuserprotocol.Common.{
  ℕ, ◌+◌, ◌*◌, ◌<◌, ◌≡◌, refl, sym, ap, ◌∙◌, Bool, true, false, List, [], ◌∷◌, ◌++◌, arith,
  if◌then◌else◌, length, inl, inr, Bool-cases,
}
use fastuserprotocol.Common.Int.{
  ℤ, pos, minus_one, ◌+ℤ◌, ◌==ℤ◌, ltb_ℤ, +ℤ_assoc, pos-add, +ℤ-id_right,
}
use fastuserprotocol.Os.{Os, ok}
use fastuserprotocol.Stats.{Ptr}
use fastuserprotocol.Session.Ledger.{Ledger, ledger, is_in, raise, credit}
use fastuserprotocol.Stream.Event.{Hub}
use fastuserprotocol.Listener.{tb_exit}
use fastuserprotocol.Udp.{Messages}
use fastuserprotocol.Udp.Contract.{Datagram, part, empty, DeliversDatagrams}
use fastuserprotocol.Udp.Event.{tb_udp_event}
use fastuserprotocol.Udp.Event.Laws.{IsOpen}
use fastuserprotocol.Udp.Event.Counted.{tally, tb_udp_event-IsCounted}

-- The bytes of the first entry with a number.
abbrev pub bytes_for : ℤ → Ledger → ℤ
bytes_for i [] = pos 0
bytes_for i ((k, n) ∷ v) = if k ==ℤ i then n else bytes_for i v

is_in-entry : (j : ℤ) (v : Ledger) → is_in j (v ++ (j, pos 0) ∷ []) ≡ true
is_in-entry j [] = ground arith
is_in-entry j ((k, n) ∷ v) = ground (arith, is_in-entry j v)

bytes_for-entry : (i j : ℤ) (v : Ledger) → bytes_for i (v ++ (j, pos 0) ∷ []) ≡ bytes_for i v
bytes_for-entry i j [] = ground arith
bytes_for-entry i j ((k, n) ∷ v) = ground (arith, bytes_for-entry i j v)

bytes_for-raise :
    (i j n : ℤ) (v : Ledger)
    → is_in j v ≡ true
    → bytes_for i (raise j n v) ≡ (if j ==ℤ i then bytes_for i v +ℤ n else bytes_for i v)
bytes_for-raise i j n [] there = absurd (cc)
bytes_for-raise i j n ((k, b) ∷ v) there = ground (arith, bytes_for-raise i j n v)

bytes_for-credit :
    (i j n : ℤ) (v : Ledger)
    → bytes_for i (credit j n v) ≡ (if j ==ℤ i then bytes_for i v +ℤ n else bytes_for i v)
bytes_for-credit i j n v = elim (Bool-cases (is_in j v)) [
  | inl there ↦ rw there (bytes_for-raise i j n v there)
  | inr absent ↦ rw absent (
      bytes_for-raise i j n (v ++ (j, pos 0) ∷ []) (is_in-entry j v)
      ∙ ap (λ b. if j ==ℤ i then b +ℤ n else b) (bytes_for-entry i j v))
]

-- The datagrams with a number.
abbrev pub count_for : ℤ → List Datagram → ℕ
count_for i [] = 0
count_for i (empty ∷ ms) = count_for i ms
count_for i (part j n len ∷ ms) = (if j ==ℤ i then 1 else 0) + count_for i ms

-- The datagrams with numbers announce some bytes.
abbrev pub Announce : List Datagram → Type 0
Announce [] = Unit {0}
Announce (empty ∷ ms) = Announce ms
Announce (part j n len ∷ ms) = (ltb_ℤ (pos 0) n ≡ true) × Announce ms

plus_none : (t : Bool) (b : ℤ) → (if t then b +ℤ pos 0 else b) ≡ b
plus_none true b = +ℤ-id_right b
plus_none false b = refl

plus_eight :
    (t : Bool) (b : ℤ) (k : ℕ)
    → (if t then b +ℤ pos 8 else b) +ℤ pos (8 * k) ≡ b +ℤ pos (8 * ((if t then 1 else 0) + k))
plus_eight true b k =
    +ℤ_assoc b (pos 8) (pos (8 * k)) ∙ ap (λ n. b +ℤ n) (pos-add 8 (8 * k) ∙ ap pos (omega arith))
plus_eight false b k = ap (λ n. b +ℤ pos n) (omega arith)

tally-counts :
    (id sz : ℤ) (ms : List Datagram) (v : Ledger) (i : ℤ)
    → ltb_ℤ (pos 0) sz ≡ true
    → Announce ms
    → ((tally id sz ms v).1 ≡ false)
      × (bytes_for i (tally id sz ms v).0 ≡ bytes_for i v +ℤ pos (8 * count_for i ms))
tally-counts id sz [] v i more a = (refl, sym (+ℤ-id_right (bytes_for i v)))
tally-counts id sz (empty ∷ ms) v i more a =
    let (stays, sum) = tally-counts id sz ms (credit id (pos 0) v) i more a in
    rw more (
      stays,
      sum
          ∙ ap (λ b. b +ℤ pos (8 * count_for i ms))
              (bytes_for-credit i id (pos 0) v ∙ plus_none (id ==ℤ i) (bytes_for i v)),
    )
tally-counts id sz (part j n len ∷ ms) v i more (some_bytes, a) =
    let (stays, sum) = tally-counts j n ms (credit j (pos 8) v) i some_bytes a in
    rw some_bytes (
      stays,
      sum
          ∙ ap (λ b. b +ℤ pos (8 * count_for i ms)) (bytes_for-credit i j (pos 8) v)
          ∙ plus_eight (j ==ℤ i) (bytes_for i v) (count_for i ms),
    )

-- When the first datagram that waits has numbers, and each one with numbers announces at least one
-- byte, an event ends with the answer 0, and no call for an exit is seen, however many empty
-- datagrams there are. For each number the bytes counted then grow by eight for every datagram with
-- that number, whatever else it carries. The listener is as `tb_udp_event-IsCounted` wants it.
pub tb_udp_event-headers_only :
    {World : Type 0} (os : Os World) (msgs : Messages World) (waiting : ℤ → World → List Datagram)
    (fuel : ℕ) (fd : ℤ) (s : Hub World) (xs : List Ptr) (j n : ℤ) (len : ℕ) (ms : List Datagram)
    → DeliversDatagrams os msgs waiting
    → IsOpen s xs
    → waiting fd s.world ≡ part j n len ∷ ms
    → Announce (part j n len ∷ ms)
    → length (part j n len ∷ ms) < fuel
    → (t : Hub World) × (ys : List Ptr) × (tb_udp_event os msgs fuel fd s ≡ ok (pos 0) t)
      × (t.listener.command ≡ s.listener.command)
      × ((i : ℤ)
          → bytes_for i (ledger t.store ys)
            ≡ bytes_for i (ledger s.store xs) +ℤ pos (8 * count_for i (part j n len ∷ ms)))
tb_udp_event-headers_only os msgs waiting fuel fd s xs j n len ms law i e (some_bytes, a) lt =
    let v = ledger s.store xs in
    let (t, ys, run, c) =
      tb_udp_event-IsCounted os msgs waiting law fuel fd s xs i
        (subst (λ l. length l < fuel) (sym e) lt) in
    let account : tally minus_one (pos 0) (waiting fd s.world) v
        ≡ tally j n ms (credit j (pos 8) v) =
      ap (λ l. tally minus_one (pos 0) l v) e
      ∙ ap (λ b. if b then tally j n ms (credit j (pos 8) v) else (v, true)) some_bytes in
    (
      t,
      ys,
      run,
      c.command
          ∙ ap (λ r. if r.1 then tb_exit else s.listener.command) account
          ∙ ap (λ b. if b then tb_exit else s.listener.command)
              (tally-counts j n ms (credit j (pos 8) v) j some_bytes a).0,
      λ k.
          ap (bytes_for k) (c.entries ∙ ap (λ r. r.0) account)
          ∙ (tally-counts j n ms (credit j (pos 8) v) k some_bytes a).1
          ∙ ap (λ b. b +ℤ pos (8 * count_for k ms)) (bytes_for-credit k j (pos 8) v)
          ∙ plus_eight (j ==ℤ k) (bytes_for k v) (count_for k ms),
    )
