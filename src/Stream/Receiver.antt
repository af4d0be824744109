-- ===== src/Stream/Receiver.antt =====
-- tb_stream_m_server_conn of src/tb_stream.c: the thread of one of the connections of a server. The
-- thread of tb_udt_event, in src/tb_udt.c, does the same with other calls, but that a receive may
-- fail because the connection has ended.
pub mod Laws
pub mod Returns
mod Tests
use fastuserprotocol.Common.{
  ℕ, zero, suc, Bool, true, false, Option, none, some, List, if◌then◌else◌,
}
use fastuserprotocol.Common.Int.{ℤ, pos, minus_one, ◌+ℤ◌, ◌==ℤ◌, to_u64}
use fastuserprotocol.Protocol.{Callee, recv, close}
use fastuserprotocol.Os.{Os, Run, ok, fault, out_of_fuel}
use fastuserprotocol.Timer.{TbTime, tb_start_time, tb_finish_time}
use fastuserprotocol.Session.{
  TbSession, TbSessionList, session_connected, session_disconnected, tb_session_list_dec,
}
use fastuserprotocol.Listener.{Command, tb_exit}
use fastuserprotocol.Listener.Net.{overwrite}

-- The session of the thread, the list that `other_info` points to, the command that the list's
-- `userdata` points to, and the world.
pub record Door (World : Type 0) : Type 0 where
  pub session : TbSession
  pub list : TbSessionList
  pub command : Command
  pub world : World

-- What was received is written to the buffer and counted.
abbrev pub received : TbSession → ℤ → List ℕ → TbSession
received c rc bytes = record c {
  contents = overwrite bytes c.contents;
  total_bytes = c.total_bytes +ℤ rc;
}

-- If this is the last, shut the door on the way out.
abbrev pub leave : {World : Type 0} → Door World → Door World
leave s =
    let r = tb_session_list_dec s.list in
    record s { list = r.1; command = if r.0 ==ℤ pos 0 then tb_exit else s.command }

-- `is_end`: does the last error say that the connection has ended?
module _ {World : Type 0} (os : Os World) (f_recv f_close : Callee) (is_end : World → Bool) where
  -- close(session->sock_d); session->status = SESSION_DISCONNECTED;
  abbrev pub hang_up : Door World → Door World
  hang_up s = record s {
    session = record s.session { status = session_disconnected };
    world = os.close f_close s.session.sock_d s.world;
  }

  -- The loop: it answers -1 if the thread is to return.
  unfoldable pub receive_loop : ℕ → Door World → Run (Door World) ℤ
  receive_loop zero s = out_of_fuel
  receive_loop (suc fuel) s =
      let r = os.recv f_recv s.session.sock_d (to_u64 s.session.pack_size) s.world in
      if r.0 ==ℤ minus_one
      then (let t : Door World = record s { world = r.2 } in
          if is_end r.2 then ok (pos 0) t else ok minus_one (hang_up t))
      else (let t : Door World = record s { session = received s.session r.0 r.1; world = r.2 } in
          if r.0 ==ℤ pos 0 then ok (pos 0) t else receive_loop fuel t)

  unfoldable pub finish_transfer : Option TbTime → Door World → Run (Door World) ℤ
  finish_transfer none s = fault
  finish_transfer (some t) s =
      let r = tb_finish_time os t s.world in
      ok (pos 0) (
        leave (
          hang_up (record s { session = record s.session { transfer_t = some r.0 }; world = r.1 })))

  abbrev pub after_loop : Run (Door World) ℤ → Run (Door World) ℤ
  after_loop (ok rc s) =
      if rc ==ℤ minus_one then ok minus_one s else finish_transfer s.session.transfer_t s
  after_loop r = r

  unfoldable pub start_transfer : ℕ → Option TbTime → Door World → Run (Door World) ℤ
  unfolding receive_loop finish_transfer
  start_transfer fuel none s = fault
  start_transfer fuel (some t) s =
      let r = tb_start_time os t s.world in
      after_loop (
        receive_loop fuel
          (record s { session = record s.session { transfer_t = some r.0 }; world = r.1 }))

  unfoldable pub server_conn : ℕ → Door World → Run (Door World) ℤ
  unfolding start_transfer
  server_conn fuel s =
      start_transfer fuel s.session.transfer_t
        (record s { session = record s.session { status = session_connected } })

-- A failed receive is never the end of the connection.
abbrev pub no_end : {World : Type 0} → World → Bool
no_end w = false

pub tb_stream_m_server_conn : {World : Type 0} → Os World → ℕ → Door World → Run (Door World) ℤ
unfolding server_conn
tb_stream_m_server_conn os fuel s = server_conn os recv close no_end fuel s
