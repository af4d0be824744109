-- ===== src/Udp/Server.antt =====
-- tb_udp_server of src/tb_udp.c.
pub mod Laws
pub mod Loop
pub mod Served
mod Tests
use fastuserprotocol.Common.{ℕ, zero, suc, Option, some, none, List, replicate, if◌then◌else◌}
use fastuserprotocol.Common.Int.{ℤ, minus_one, ◌+ℤ◌, ◌==ℤ◌, to_u64}
use fastuserprotocol.Protocol.{close}
use fastuserprotocol.Os.{Os, out_of_fuel, pure, ◌>>=◌, ◌>>◌, get}
use fastuserprotocol.Session.{TbSession, tb_create_server_session}
use fastuserprotocol.Listener.{TbListener, leaves_loop, tb_connected, tb_disconnected, tb_listening}
use fastuserprotocol.Listener.Net.{
  Cmd, do_call, set_listener, set_status, start_transfer, finish_transfer, read_command,
  tb_recv_from, tb_send_to,
}

-- The session that the listener gets, with a buffer. What malloc leaves in it, which is nowhere looked
-- at, is zero here.
abbrev pub buffered : ℤ → TbSession
buffered bufsize = record tb_create_server_session {
  contents = replicate (to_u64 bufsize) 0;
  data_size = to_u64 bufsize;
}

module _ {World : Type 0} (os : Os World) where
  -- The session is the one that the listener points to.
  abbrev pub attach : TbSession → Cmd os (Unit {0})
  attach c = set_listener os λ l. record l { curr_session = some c }

  -- listener->total_tx_rx += listener->curr_session->last_trans;
  abbrev pub count_last : TbSession → Cmd os (Unit {0})
  count_last c = set_listener os λ l. record l { total_tx_rx = l.total_tx_rx +ℤ c.last_trans }

  -- A datagram is received into the session of the listener.
  abbrev pub receive : TbSession → Cmd os TbSession
  receive c = tb_recv_from os c >>= λ c'. attach c' >> pure c'

  -- An empty datagram is answered, and ends the loop.
  unfoldable pub server_loop : ℕ → TbSession → Cmd os (Unit {0})
  server_loop zero c = λ s. out_of_fuel
  server_loop (suc fuel) c = read_command os >>= λ command.
      if leaves_loop command
      then pure tt
      else receive c >>= λ c' s.
          (if c'.last_trans ==ℤ s.protocol.eot
              then tb_send_to os c' >>= (λ _. pure tt)
              else count_last c' >> server_loop fuel c')
            s

  -- The first datagram counts as the connection.
  unfoldable pub first_datagram : Cmd os TbSession
  first_datagram s =
      (set_status os tb_listening
          >> (attach (buffered s.bufsize)
              >> (receive (buffered s.bufsize) >>= λ c.
                  count_last c >> (set_status os tb_connected >> pure c))))
        s

  unfoldable pub close_socket : Cmd os ℤ
  close_socket = do
    s ← get
    do_call os (os.close close s.sock_d)
    set_listener os (λ l. record l { sock_d = minus_one; status = tb_disconnected })
    pure s.total_tx_rx

  unfoldable pub tb_udp_server : ℕ → Cmd os ℤ
  unfolding first_datagram server_loop close_socket
  tb_udp_server fuel = first_datagram >>= λ c.
      start_transfer os >> (server_loop fuel c >> (finish_transfer os >> close_socket))
