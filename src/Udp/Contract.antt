-- ===== src/Udp/Contract.antt =====
-- What the documentation of recvmsg says of the datagrams that wait at a socket: a hypothesis on the
-- parameter `Messages` of the drivers for UDP.
use Prim.Native.Nat.{min}
use fastuserprotocol.Common.{ℕ, ◌+◌, ◌≤◌, ◌≡◌, ◌⊎◌, true, List, [], ◌∷◌, ◌++◌}
use fastuserprotocol.Common.Int.{ℤ, pos, minus_one, ltb_ℤ}
use fastuserprotocol.Os.{Os, AddrInfo}
use fastuserprotocol.Protocol.{Callee, recvfrom}
use fastuserprotocol.Udp.{Messages, Piece, message_size}

-- A datagram as a client of src/tb_udp.c sends it: two numbers with so many bytes behind them, or
-- nothing at all.
pub data Datagram : Type 0 where
  part : ℤ → ℤ → ℕ → Datagram
  empty : Datagram

-- `waiting fd w` are the datagrams that wait at `fd`, in their order. A receive takes the first one,
-- fills what room it has, and drops the rest of it; with none there it would block.
pub record DeliversDatagrams {World : Type 0} (os : Os World) (msgs : Messages World)
    (waiting : ℤ → World → List Datagram) : Type 0 where
  pub none_left :
      (fd : ℤ) (room : ℕ) (id sz : ℤ) (w : World)
      → waiting fd w ≡ []
      → let r = msgs.recvmsg fd room id sz w in
        (ltb_ℤ r.0 (pos 0) ≡ true) × (msgs.would_block r.3 ≡ true) × (waiting fd r.3 ≡ [])
  pub empty_next :
      (fd : ℤ) (room : ℕ) (id sz : ℤ) (w : World) (ms : List Datagram)
      → waiting fd w ≡ empty ∷ ms
      → let r = msgs.recvmsg fd room id sz w in
        (r.0 ≡ pos 0) × (r.1 ≡ id) × (r.2 ≡ sz) × (waiting fd r.3 ≡ ms)
  pub part_next :
      (fd : ℤ) (room : ℕ) (id sz : ℤ) (w : World) (i n : ℤ) (len : ℕ) (ms : List Datagram)
      → 8 ≤ room
      → waiting fd w ≡ part i n len ∷ ms
      → let r = msgs.recvmsg fd room id sz w in
        (r.0 ≡ pos (min room (8 + len))) × (r.1 ≡ i) × (r.2 ≡ n) × (waiting fd r.3 ≡ ms)
  pub reading_clock : (fd : ℤ) (w : World) → waiting fd (os.clock_gettime w).1 ≡ waiting fd w

-- `coming fd w` are the sizes of the datagrams that come in at `fd`, in their order. A receive with
-- recvfrom fails, or takes the next one and answers its size, or that of the buffer if it is longer.
-- Nothing else takes one.
pub record ReceivesDatagrams {World : Type 0} (os : Os World) (coming : ℤ → World → List ℕ)
    : Type 0 where
  pub answers :
      (fd : ℤ) (room : ℕ) (w : World) (n : ℕ) (ns : List ℕ)
      → coming fd w ≡ n ∷ ns
      → let r = os.recv recvfrom fd room w in
        (r.0 ≡ minus_one) ⊎ ((r.0 ≡ pos (min room n)) × (coming fd r.2 ≡ ns))
  pub sending :
      (g : Callee) (fd d : ℤ) (bytes : List ℕ) (w : World)
      → coming fd (os.send g d bytes w).1 ≡ coming fd w
  pub closing : (g : Callee) (fd d : ℤ) (w : World) → coming fd (os.close g d w) ≡ coming fd w
  pub checking_signals : (fd : ℤ) (w : World) → coming fd (os.interrupted w).1 ≡ coming fd w
  pub reading_clock : (fd : ℤ) (w : World) → coming fd (os.clock_gettime w).1 ≡ coming fd w

-- `posted fd w` are the messages that were sent at `fd`, in their order. A send of a message fails, or
-- sends it whole. Connecting and reading the clock send none.
pub record PostsMessages {World : Type 0} (os : Os World) (msgs : Messages World)
    (posted : ℤ → World → List (List Piece)) : Type 0 where
  pub posts :
      (fd : ℤ) (m : List Piece) (w : World)
      → let r = msgs.sendmsg fd m w in
        ((r.0 ≡ minus_one) × (posted fd r.1 ≡ posted fd w))
        ⊎ ((r.0 ≡ pos (message_size m)) × (posted fd r.1 ≡ posted fd w ++ m ∷ []))
  pub connecting :
      (g : Callee) (fd d : ℤ) (a : AddrInfo) (w : World)
      → posted fd (os.connect g d a w).1 ≡ posted fd w
  pub reading_clock : (fd : ℤ) (w : World) → posted fd (os.clock_gettime w).1 ≡ posted fd w
