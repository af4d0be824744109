-- ===== src/Udp.antt =====
-- src/tb_udp.c: the drivers for UDP, and what they ask of the system beyond `Os`.
pub mod Client
pub mod Contract
pub mod Event
pub mod Sample
pub mod Server
pub mod Sender
use fastuserprotocol.Common.{ℕ, ◌+◌, Bool, List, [], ◌∷◌, ◌≡◌, length, Option}
use fastuserprotocol.Common.Int.{ℤ, pos, ltb_ℤ}

-- One element of the vector of a message: a number of four bytes, or a run of bytes.
pub data Piece : Type 0 where
  number : ℤ → Piece
  run : List ℕ → Piece

abbrev pub piece_size : Piece → ℕ
piece_size (number n) = 4
piece_size (run bytes) = length bytes

abbrev pub message_size : List Piece → ℕ
message_size [] = 0
message_size (p ∷ ps) = piece_size p + message_size ps

-- sendmsg gets the pieces of a message and answers their size, or -1. recvmsg gets the size of the
-- vector that it may fill and the two numbers at its start as they are, and answers the count of the
-- bytes that it has filled in, or a negative number, and the two numbers as they then are.
pub record Messages (World : Type 0) : Type 0 where
  pub sendmsg : ℤ → List Piece → World → ℤ × World
  pub recvmsg : ℤ → ℕ → ℤ → ℤ → World → ℤ × ℤ × ℤ × World
  pub would_block : World → Bool
