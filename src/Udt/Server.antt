-- ===== src/Udt/Server.antt =====
-- tb_udt_server of src/tb_udt.c.
pub mod Laws
pub mod Served
mod Tests
use fastuserprotocol.Common.{ℕ, zero, suc, none, some, if◌then◌else◌}
use fastuserprotocol.Common.Int.{ℤ, minus_one, ◌==ℤ◌}
use fastuserprotocol.Protocol.{udt_listen, udt_accept, udt_recv, udt_close}
use fastuserprotocol.Os.{Os, out_of_fuel, pure, ◌>>=◌, ◌>>◌}
use fastuserprotocol.Session.{TbSession}
use fastuserprotocol.Listener.{leaves_loop, tb_connected, tb_disconnected, tb_listening}
use fastuserprotocol.Listener.Net.{
  Cmd, call, do_call, set_listener, set_status, start_transfer, finish_transfer, tb_abort_thread,
  read_command, overwrite,
}
use fastuserprotocol.Stream.Server.{with_last, count_received, new_session, close_server}
use fastuserprotocol.Udt.{Udt, is_broken}
use fastuserprotocol.Udt.Client.{is_over}

module _ {World : Type 0} (os : Os World) (udt : Udt World) where
  -- session->last_trans = udt_recv(session->sock_d, session->data, session->data_size, 0), where the
  -- listener points to the session.
  unfoldable pub receive : TbSession → Cmd os TbSession
  receive session s =
      let r = os.recv udt_recv session.sock_d session.data_size s.world in
      let got = record session { last_trans = r.0; contents = overwrite r.1 session.contents } in
      (do_call os (λ _. r.2)
          >> (set_listener os (λ l. record l { curr_session = some got }) >> pure got))
        s

  -- After an error: the end of the connection, or an abort.
  unfoldable pub leave_or_abort : TbSession → Cmd os TbSession
  unfolding tb_abort_thread
  leave_or_abort session s = (if is_broken udt s.world then pure session else tb_abort_thread os) s

  -- The critical loop, which a receive of 0 bytes does not end.
  unfoldable pub recv_loop : ℕ → TbSession → Cmd os TbSession
  unfolding receive leave_or_abort read_command
  recv_loop zero session = λ s. out_of_fuel
  recv_loop (suc fuel) session = read_command os >>= λ command.
      if leaves_loop command
      then pure session
      else receive session >>= λ c.
          if c.last_trans ==ℤ minus_one
          then leave_or_abort c
          else count_received os c >> recv_loop fuel (with_last os c)

  unfoldable pub accept_session : Cmd os TbSession
  unfolding tb_abort_thread
  accept_session s =
      (call os (os.accept udt_accept s.sock_d) >>= λ fd.
      if fd ==ℤ minus_one
      then tb_abort_thread os
      else set_listener os (λ l. record l {
        curr_session = some (new_session os fd l.bufsize);
        status = tb_connected;
      })
        >> (start_transfer os >> pure (new_session os fd s.bufsize)))
        s

  unfoldable pub end_session : TbSession → Cmd os (Unit {0})
  end_session c =
      finish_transfer os
      >> (set_status os tb_disconnected
          >> (set_listener os (λ l. record l { curr_session = none })
              >> (do_call os (os.close udt_close c.sock_d)
                  >> set_listener os (λ l. record l { command = l.s_tx_end }))))

  unfoldable pub server_round : ℕ → Cmd os (Unit {0})
  unfolding accept_session recv_loop end_session
  server_round fuel = accept_session >>= λ c. recv_loop fuel c >>= end_session

  unfoldable pub server_loop : ℕ → ℕ → Cmd os (Unit {0})
  unfolding server_round read_command
  server_loop zero fuel = λ s. out_of_fuel
  server_loop (suc rounds) fuel = read_command os >>= λ command.
      if is_over command then pure tt else server_round fuel >> server_loop rounds fuel

  unfoldable pub listen : Cmd os (Unit {0})
  unfolding tb_abort_thread
  listen s =
      (call os (os.listen udt_listen s.sock_d 10) >>= λ rc.
      if rc ==ℤ minus_one then tb_abort_thread os else set_status os tb_listening)
        s

  pub tb_udt_server : ℕ → ℕ → Cmd os ℤ
  unfolding listen server_loop close_server
  tb_udt_server rounds fuel = listen >> (server_loop rounds fuel >> close_server os)
