-- ===== src/Os/Contract.antt =====
-- What the documentation of the system calls says, where a theorem relies on it: hypotheses on the
-- parameter `Os`, not on the program.
use fastuserprotocol.Common.{true, false, suc, ℕ, ◌+◌, ◌<◌, ◌≤◌, ◌≡◌, ◌⊎◌, List, ◌++◌, length, take}
use fastuserprotocol.Common.Int.{ℤ, pos, minus_one, ◌==ℤ◌}
use fastuserprotocol.Protocol.{Callee}
use fastuserprotocol.Os.{Os, AddrInfo, OptName}

-- What a send of `bytes` may come to: -1, and nothing has been taken, or the count of the bytes
-- taken, which are the first ones; a send of some bytes does not come back before one is taken.
abbrev pub Taken : ℤ → List ℕ → List ℕ → List ℕ → Type 0
Taken rc bytes before after =
    ((rc ≡ minus_one) × (after ≡ before))
    ⊎ ((n : ℕ) × (rc ≡ pos n)
        × (n ≤ length bytes)
        × (0 < length bytes → 0 < n)
        × (after ≡ before ++ take n bytes))

-- `sent fd w` stands for the bytes that the socket `fd` has taken so far in the world `w`. Only
-- sending adds to them.
pub record SendsBytes {World : Type 0} (os : Os World) (f : Callee) (sent : ℤ → World → List ℕ)
    : Type 0 where
  pub takes :
      (fd : ℤ) (bytes : List ℕ) (w : World)
      → Taken (os.send f fd bytes w).0 bytes (sent fd w) (sent fd (os.send f fd bytes w).1)
  pub connecting :
      (g : Callee) (fd d : ℤ) (a : AddrInfo) (w : World)
      → sent fd (os.connect g d a w).1 ≡ sent fd w
  pub reading_clock : (fd : ℤ) (w : World) → sent fd (os.clock_gettime w).1 ≡ sent fd w
  pub closing : (g : Callee) (fd d : ℤ) (w : World) → sent fd (os.close g d w) ≡ sent fd w

-- `left fd w` stands for the bytes that the peer of `fd` has still to send before it closes the
-- connection. A receive answers -1, or the count of the bytes that it hands over; into a buffer
-- with room it answers 0 at the end only. Nothing else changes what is left.
pub record ReceivesBytes {World : Type 0} (os : Os World) (f : Callee) (left : ℤ → World → ℕ)
    : Type 0 where
  pub answers :
      (fd : ℤ) (n : ℕ) (w : World)
      → 0 < n
      → let r = os.recv f fd n w in
        (r.0 ≡ minus_one)
        ⊎ ((k : ℕ) × (r.0 ≡ pos k) × (k + left fd r.2 ≡ left fd w) × (k ≡ 0 → left fd w ≡ 0))
  pub checking_signals : (fd : ℤ) (w : World) → left fd (os.interrupted w).1 ≡ left fd w
  pub reading_clock : (fd : ℤ) (w : World) → left fd (os.clock_gettime w).1 ≡ left fd w

-- The same for a call that never answers 0: it waits until there is something to hand over, and when
-- nothing is left, fails.
pub record ReceivesSome {World : Type 0} (os : Os World) (f : Callee) (left : ℤ → World → ℕ)
    : Type 0 where
  pub answers :
      (fd : ℤ) (n : ℕ) (w : World)
      → 0 < n
      → let r = os.recv f fd n w in
        (r.0 ≡ minus_one) ⊎ ((k : ℕ) × (r.0 ≡ pos k) × (0 < k) × (k + left fd r.2 ≡ left fd w))
  pub checking_signals : (fd : ℤ) (w : World) → left fd (os.interrupted w).1 ≡ left fd w
  pub reading_clock : (fd : ℤ) (w : World) → left fd (os.clock_gettime w).1 ≡ left fd w

-- Looking for a signal, and the shutdown that one leads to, send nothing.
pub record SignalsSendNothing {World : Type 0} (os : Os World) (sent : ℤ → World → List ℕ)
    : Type 0 where
  pub checking : (fd : ℤ) (w : World) → sent fd (os.interrupted w).1 ≡ sent fd w
  pub shutting : (fd d : ℤ) (w : World) → sent fd (os.shutdown d w) ≡ sent fd w

-- `pending fd w` stands for the connections that wait at `fd` to be accepted. An accept answers -1,
-- or takes one of them. The calls that set a connection up take none.
pub record AcceptsPending {World : Type 0} (os : Os World) (f : Callee) (pending : ℤ → World → ℕ)
    : Type 0 where
  pub answers :
      (fd : ℤ) (w : World)
      → let r = os.accept f fd w in
        (((r.0 ==ℤ minus_one) ≡ true) × (pending fd r.1 ≡ pending fd w))
        ⊎ (((r.0 ==ℤ minus_one) ≡ false) × (suc (pending fd r.1) ≡ pending fd w))
  pub setting :
      (fd d : ℤ) (o : OptName) (v : ℤ) (w : World)
      → pending fd (os.setsockopt d o v w).1 ≡ pending fd w
  pub getting :
      (fd d : ℤ) (o : OptName) (w : World) → pending fd (os.getsockopt d o w).1 ≡ pending fd w
  pub reading_clock : (fd : ℤ) (w : World) → pending fd (os.clock_gettime w).1 ≡ pending fd w
