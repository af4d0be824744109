-- ===== src/Udt/Event/Laws.antt =====
-- What tb_udt_event of src/tb_udt.c has accepted when it returns.
use fastuserprotocol.Common.{◌≡◌, true, false}
use fastuserprotocol.Common.Int.{ℤ, pos, ltb_ℤ}
use fastuserprotocol.Os.{Os, udt_rcvsyn}
use fastuserprotocol.Listener.{tb_aborting}
use fastuserprotocol.Stream.Event.{Hub}

abbrev pub Aborted : {World : Type 0} → Hub World → Type 0
Aborted t = t.listener.status ≡ tb_aborting

module _ {World : Type 0} (os : Os World) where
  -- The socket `fd` has been set to blocking, in the world `w`.
  abbrev pub Blocks : ℤ → World → Type 0
  Blocks fd w = ltb_ℤ (os.setsockopt fd udt_rcvsyn (pos 1) w).0 (pos 0) ≡ false

  -- Setting the socket `fd` to blocking has failed, and the thread is aborted.
  abbrev pub CannotBlock : ℤ → World → Hub World → Type 0
  CannotBlock fd w t = (ltb_ℤ (os.setsockopt fd udt_rcvsyn (pos 1) w).0 (pos 0) ≡ true) × Aborted t
