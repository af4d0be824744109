-- ===== src/Stream/Event.antt =====
-- tb_stream_event of src/tb_stream.c: the connections that wait are accepted, and their sessions put
-- into the list of the listener. The threads that it creates are not part of it.
pub mod Laws
pub mod Accepted
mod Tests
use fastuserprotocol.Common.{
  ◌+◌, ℕ, zero, suc, Bool, true, false, Option, none, some, List, [], if◌then◌else◌,
}
use fastuserprotocol.Common.Int.{ℤ, pos, minus_one, ◌==ℤ◌}
use fastuserprotocol.Protocol.{Callee, Protocol, accept}
use fastuserprotocol.Os.{Os, Run, ok, exited, halted, fault, out_of_fuel, ◌>>=◌}
use fastuserprotocol.Timer.{tb_start_time}
use fastuserprotocol.Stats.{Ptr, tb_create_stats}
use fastuserprotocol.Session.{
  TbSession, TbSessionList, Store, Sessions, write, tb_create_session, tb_session_add,
  tb_session_list_inc,
}
use fastuserprotocol.SockOpt.{TbOptions, tb_set_sock_opt}
use fastuserprotocol.Listener.{TbListener, Status, tb_connected, tb_listening}

-- The listener, the memory of its sessions, the address that malloc gives next, and the world. Here
-- malloc does not fail, and gives each address once.
pub record Hub (World : Type 0) : Type 0 where
  pub listener : TbListener
  pub store : Store
  pub next : Ptr
  pub world : World

-- A session for a connection that is accepted, with a buffer to which nothing has been written.
abbrev pub accepted : TbListener → ℤ → TbSession
accepted l fd = record tb_create_session {
  sock_d = fd;
  pack_size = l.bufsize;
  stats = some (record tb_create_stats { protocol = l.protocol.protocol });
}

abbrev pub sessions_of : TbListener → Store → Sessions
sessions_of l h = record { list = l.session_list; store = h }

abbrev pub with_list : TbListener → TbSessionList → TbListener
with_list l list = record l { session_list = (tb_session_list_inc list).1 }

module _ {World : Type 0} (os : Os World) where
  -- If still listening, change to connected and start timing.
  unfoldable pub now_connected : Status → Ptr → Hub World → Hub World
  now_connected tb_listening q s =
      let r = tb_start_time os s.listener.transfer_time s.world in
      record s {
        listener = record s.listener {
          status = tb_connected;
          transfer_time = r.0;
          stats = record s.listener.stats { n_stats = q };
        };
        world = r.1;
      }
  now_connected _ q s = s

  -- Adding the session, in the memory in which it has been made at `q`.
  unfoldable pub added_to : TbListener → Ptr → World → Run Sessions (Unit {0}) → Run (Hub World) Ptr
  added_to l q w (ok _ s) = ok q (
      now_connected l.status q
        (record { listener = with_list l s.list; store = s.store; next = q + 1; world = w }))
  added_to l q w _ = fault

  -- When the socket is set up, in the world `w`, and the listener has the options `o`, the session of
  -- the socket is made and added.
  unfoldable pub take_in : TbOptions → World → ℤ → Hub World → Run (Hub World) Ptr
  unfolding added_to
  take_in o w fd s =
      let l = record s.listener { options = o } in
      let q = s.next in
      added_to l q w (tb_session_add q (sessions_of l (write s.store q (accepted l fd))))

  unfoldable pub accept_one : ℤ → Hub World → Run (Hub World) Ptr
  unfolding take_in
  accept_one fd s =
      let r = tb_set_sock_opt os s.listener.options fd s.world in take_in r.options r.world fd s

  -- The loop of an event, which accepts by `f` and treats what it gets by `step`.
  unfoldable pub event_loop :
      Callee → (ℤ → Hub World → Run (Hub World) Ptr) → ℕ → Hub World → Run (Hub World) ℤ
  event_loop f step zero s = out_of_fuel
  event_loop f step (suc fuel) s =
      let r = os.accept f s.listener.sock_d s.world in
      if r.0 ==ℤ minus_one
      then ok (pos 0) (record s { world = r.1 })
      else (step r.0 >>= λ _. event_loop f step fuel) (record s { world = r.1 })

  -- The assertion compares the socket of the listener with that of the event.
  pub tb_stream_event : ℕ → ℤ → Hub World → Run (Hub World) ℤ
  unfolding event_loop accept_one
  tb_stream_event fuel fd s =
      if s.listener.sock_d ==ℤ fd then event_loop accept accept_one fuel s else halted s
