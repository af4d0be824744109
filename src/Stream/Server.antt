-- ===== src/Stream/Server.antt =====
-- tb_stream_server of src/tb_stream.c.
pub mod Faults
pub mod Laws
mod Tests
pub mod Served
use fastuserprotocol.Common.{
  ℕ, zero, suc, Bool, true, false, Option, none, some, List, [], if◌then◌else◌,
}
use fastuserprotocol.Common.Int.{ℤ, pos, minus_one, ◌+ℤ◌, ◌==ℤ◌, to_u64}
use fastuserprotocol.Protocol.{accept, close}
use fastuserprotocol.Os.{Os, fault, out_of_fuel, pure, ◌>>=◌, ◌>>◌, get, when}
use fastuserprotocol.Session.{TbSession, tb_create_server_session}
use fastuserprotocol.Listener.{TbListener, leaves_loop, tb_connected, tb_disconnected, tb_listening}
use fastuserprotocol.Listener.Net.{
  Cmd, call, do_call, set_listener, set_status, start_transfer, finish_transfer, close_by_table,
  tb_abort_thread, read_command, tb_listen, tb_recv_data,
}

module _ {World : Type 0} (os : Os World) where
  -- session->total_bytes += session->last_trans;
  abbrev pub with_last : TbSession → TbSession
  with_last c = record c { total_bytes = c.total_bytes +ℤ c.last_trans }

  -- What was received is counted in the session and in the listener, which points to it.
  abbrev pub count_received : TbSession → Cmd os (Unit {0})
  count_received c = set_listener os λ l. record l {
    total_tx_rx = l.total_tx_rx +ℤ c.last_trans;
    curr_session = some (with_last c);
  }

  -- The do loop. The command is read only if something was received.
  unfoldable pub recv_loop : ℕ → TbSession → Cmd os TbSession
  recv_loop zero session = λ s. out_of_fuel
  recv_loop (suc fuel) session = tb_recv_data os session >>= λ c.
      count_received c
      >> (if c.last_trans ==ℤ pos 0
          then pure (with_last c)
          else read_command os >>= λ command.
              if leaves_loop command then pure (with_last c) else recv_loop fuel (with_last c))

  -- A new session with a buffer, of which nothing has been written yet.
  abbrev pub new_session : ℤ → ℤ → TbSession
  new_session fd bufsize = record tb_create_server_session {
    sock_d = fd;
    data_size = to_u64 bufsize;
  }

  unfoldable pub accept_session : Cmd os TbSession
  accept_session s =
      (call os (os.accept accept s.sock_d) >>= λ fd.
      start_transfer os
      >> (if fd ==ℤ minus_one
          then tb_abort_thread os
          else set_listener os (λ l. record l {
            curr_session = some (new_session fd l.bufsize);
            status = tb_connected;
          })
            >> pure (new_session fd s.bufsize)))
        s

  -- The connection is closed, and its session destroyed.
  unfoldable pub close_session : TbSession → Cmd os (Unit {0})
  close_session c =
      finish_transfer os
      >> (set_status os tb_disconnected
          >> (do_call os (os.close close c.sock_d)
              >> set_listener os (λ l. record l { curr_session = none })))

  -- The descriptor for the second close is read from the session that has just been freed: this is
  -- undefined, and with it all that would follow.
  unfoldable pub end_session : TbSession → Cmd os (Unit {0})
  unfolding close_session
  end_session c = close_session c >> (λ s. fault)

  unfoldable pub server_round : ℕ → Cmd os (Unit {0})
  server_round fuel = accept_session >>= λ c. recv_loop fuel c >>= end_session

  unfoldable pub server_loop : ℕ → ℕ → Cmd os (Unit {0})
  server_loop zero fuel = λ s. out_of_fuel
  server_loop (suc rounds) fuel = read_command os >>= λ command.
      if leaves_loop command then pure tt else server_round fuel >> server_loop rounds fuel

  unfoldable pub close_server : Cmd os ℤ
  close_server = do
    s ← get
    close_by_table os s.sock_d
    set_listener os (λ l. record l { sock_d = minus_one })
    pure s.total_tx_rx

  pub tb_stream_server : ℕ → ℕ → Cmd os ℤ
  unfolding close_server
  tb_stream_server rounds fuel = do
    _ ← tb_listen os
    set_status os tb_listening
    server_loop rounds fuel
    close_server
