-- ===== src/Udt.antt =====
-- src/tb_udt.c: the drivers for UDT, and what they ask of the UDT library beyond `Os`.
pub mod Client
pub mod Connection
pub mod Event
pub mod Receiver
pub mod Sample
pub mod Server
use fastuserprotocol.Common.{Bool}
use fastuserprotocol.Common.Int.{ℤ, pos, ◌==ℤ◌}

-- The code of the last error, and what the end of the library does. UDT_ERROR is -1.
pub record Udt (World : Type 0) : Type 0 where
  pub udt_getlasterror_code : World → ℤ
  pub udt_cleanup : World → World

-- The connection was broken, by the peer or on the way.
abbrev pub is_broken : {World : Type 0} → Udt World → World → Bool
is_broken udt w = udt.udt_getlasterror_code w ==ℤ pos 2001
