-- ===== src/Session/Walk.antt =====
-- The loops of src/tb_listener.c that go once through the sessions of a list, and what such a loop
-- comes to on a well-formed list.
pub mod Laws
use fastuserprotocol.Common.{ℕ, zero, suc, Option, none, some, ◌==◌, if◌then◌else◌}
use fastuserprotocol.Os.{Run, ok, fault, out_of_fuel}
use fastuserprotocol.Stats.{Ptr}
use fastuserprotocol.Session.{TbSession, Store, write}

-- while(session) { body; session = session->n_session; } with the other state of the loop beside the
-- store. The body is `none` where it reads through a null pointer.
unfoldable pub each_session :
    {S : Type 0}
    → ℕ
    → (TbSession → S → Option (TbSession × S))
    → Ptr
    → Store
    → S
    → Run (Unit {0}) (Store × S)
each_session zero f p h s = out_of_fuel
each_session (suc fuel) f p h s = if p == 0 then ok (h, s) tt else elim (h p) [
  | none ↦ fault
  | some c ↦ elim (f c s) [
    | none ↦ fault
    | some (c', s') ↦ each_session fuel f c'.n_session (write h p c') s'
  ]
]
