-- ===== src/Testbed/Start.antt =====
-- tb_start of src/tb_testbed.c, up to the thread that it creates.
pub mod Laws
mod Tests
use fastuserprotocol.Common.{Bool, true, false, if◌then◌else◌}
use fastuserprotocol.Common.Int.{ℤ, minus_one, ◌==ℤ◌}
use fastuserprotocol.Protocol.{Protocol}
use fastuserprotocol.Os.{Os, ok, pure, ◌>>=◌, ◌>>◌, when}
use fastuserprotocol.SockOpt.{tb_set_sock_opt}
use fastuserprotocol.Listener.{EndpointType, server, client, m_server, m_client}
use fastuserprotocol.Listener.Net.{Cmd, tb_resolve_address, tb_create_socket, tb_abort_thread}
use fastuserprotocol.Endpoint.{is_utp}

-- The function that the new thread runs.
pub data Thread : Type 0 where
  runs_server runs_client : Thread

abbrev pub thread_of : EndpointType → Thread
thread_of server = runs_server
thread_of m_server = runs_server
thread_of client = runs_client
thread_of m_client = runs_client

module _ {World : Type 0} (os : Os World) where
  unfoldable pub socket_for : Protocol → Cmd os (Unit {0})
  unfolding tb_create_socket
  socket_for p = if is_utp p then pure tt else tb_create_socket os >>= λ rc. pure tt

  -- The options that have been completed stay in the listener.
  unfoldable pub set_options : Cmd os (Unit {0})
  unfolding tb_abort_thread
  set_options s =
      let r = tb_set_sock_opt os s.options s.sock_d s.world in
      (when (r.rc ==ℤ minus_one) (tb_abort_thread os))
        (record { listener = record s.listener { options = r.options }; world = r.world })

  -- Every endpoint type is one of the four, so that the last two branches are not reached.
  unfoldable pub start_up : Cmd os Thread
  unfolding socket_for set_options tb_resolve_address tb_abort_thread
  start_up = tb_resolve_address os >>= λ rc.
      when (rc ==ℤ minus_one) (tb_abort_thread os)
      >> (λ s. (socket_for s.protocol.protocol >> set_options) s)
      >> (λ s. ok (thread_of s.e_type) s)
