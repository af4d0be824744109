-- ===== src/Udt/Event.antt =====
-- tb_udt_event of src/tb_udt.c: the connections that wait are accepted, and their sessions put into
-- the list of the listener. The threads that it creates are not part of it.
pub mod Laws
mod Tests
use fastuserprotocol.Common.{ℕ, if◌then◌else◌}
use fastuserprotocol.Common.Int.{ℤ, pos, ltb_ℤ}
use fastuserprotocol.Protocol.{udt_accept}
use fastuserprotocol.Os.{Os, Run, ok, exited, halted, fault, out_of_fuel, udt_rcvsyn}
use fastuserprotocol.Stats.{Ptr}
use fastuserprotocol.Listener.Net.{State, tb_abort_thread}
use fastuserprotocol.Stream.Event.{Hub, take_in, event_loop}

-- A command of the listener, in the memory of its sessions.
abbrev pub within : {World A : Type 0} → Hub World → Run (State World) A → Run (Hub World) A
within s (ok a t) = ok a (record s { listener = t.listener; world = t.world })
within s (exited t) = exited (record s { listener = t.listener; world = t.world })
within s (halted t) = halted (record s { listener = t.listener; world = t.world })
within s fault = fault
within s out_of_fuel = out_of_fuel

module _ {World : Type 0} (os : Os World) where
  -- The new socket is set to blocking, and if that fails, the thread of the listener ends.
  unfoldable pub block_one : ℤ → Hub World → Run (Hub World) Ptr
  unfolding take_in tb_abort_thread
  block_one fd s =
      let r = os.setsockopt fd udt_rcvsyn (pos 1) s.world in
      if ltb_ℤ r.0 (pos 0)
      then within s (tb_abort_thread os (record { listener = s.listener; world = r.1 }))
      else take_in os s.listener.options r.1 fd s

  -- The loop ends when an accept fails; the session made for it is destroyed.
  pub tb_udt_event : ℕ → Hub World → Run (Hub World) ℤ
  unfolding event_loop block_one
  tb_udt_event fuel s = event_loop os udt_accept block_one fuel s
