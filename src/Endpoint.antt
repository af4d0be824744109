-- ===== src/Endpoint.antt =====
-- tb_client and tb_server of src/tb_endpoint.c: the threads of an endpoint, which choose its driver.
pub mod Laws
mod Tests
use fastuserprotocol.Common.{ℕ, Bool, true, false, Option, List, if◌then◌else◌}
use fastuserprotocol.Common.Int.{ℤ}
use fastuserprotocol.Protocol.{Protocol, tcp, udp, udt, a_udt, utp, e_udp, dccp}
use fastuserprotocol.Os.{Os, Run, ok, fault, pure, ◌>>=◌, ◌>>◌}
use fastuserprotocol.Listener.{EndpointType, client, server, m_client, m_server}
use fastuserprotocol.Listener.Net.{State, Cmd, tb_bind, tb_abort_thread, tb_exit_thread}
use fastuserprotocol.Epoll.{TbEpoll}
use fastuserprotocol.TestFile.{Files, tb_create_test_file}
use fastuserprotocol.Stream.Client.{tb_stream_client}
use fastuserprotocol.Stream.Server.{tb_stream_server}
use fastuserprotocol.Udp.Client.{Outgoing, tb_udp_client}
use fastuserprotocol.Udp.Server.{tb_udp_server}
use fastuserprotocol.Udt.{Udt}
use fastuserprotocol.Udt.Client.{tb_udt_client}
use fastuserprotocol.Udt.Server.{tb_udt_server}

-- The drivers that the development does not model.
pub record Drivers (World : Type 0) : Type 0 where
  pub tb_utp_client : State World → Run (State World) ℤ
  pub tb_utp_m_client : State World → Run (State World) ℤ
  pub tb_stream_m_client : State World → Run (State World) ℤ
  pub tb_udp_m_client : State World → Run (State World) ℤ
  pub tb_udt_m_client : State World → Run (State World) ℤ
  pub tb_utp_server : State World → Run (State World) ℤ
  pub tb_udp_m_server : State World → Run (State World) ℤ
  pub tb_stream_m_server : State World → Run (State World) ℤ
  pub tb_udt_m_server : State World → Run (State World) ℤ

abbrev pub is_client : EndpointType → Bool
is_client client = true
is_client _ = false

abbrev pub is_server : EndpointType → Bool
is_server server = true
is_server _ = false

abbrev pub is_utp : Protocol → Bool
is_utp utp = true
is_utp _ = false

module _ {World : Type 0} (os : Os World) (files : Files World) (out : Outgoing World)
    (epoll : Option TbEpoll) (udt_library : Udt World) (others : Drivers World) where
  -- The listener gets the data, and its size.
  abbrev pub with_data :
      State World → Run World (Option (List ℕ) × ℤ) → Run (State World) (Unit {0})
  with_data s (ok loaded w) = ok tt (record {
    listener = record s.listener { contents = loaded.0; file_size = loaded.1 };
    world = w;
  })
  with_data s _ = fault

  unfoldable pub create_data : Cmd os (Unit {0})
  create_data s = with_data s (tb_create_test_file files s.filename s.file_size s.world)

  -- The switch of tb_client, where `fuel` is for the loops of the driver, and
  -- `epoll` is what tb_create_e_poll returns to tb_udp_client.
  unfoldable pub run_client : ℕ → Protocol → EndpointType → Cmd os ℤ
  unfolding tb_abort_thread
  run_client fuel utp e = if is_client e then others.tb_utp_client else others.tb_utp_m_client
  run_client fuel tcp e =
      if is_client e then tb_stream_client os fuel else others.tb_stream_m_client
  run_client fuel dccp e =
      if is_client e then tb_stream_client os fuel else others.tb_stream_m_client
  run_client fuel udp e =
      if is_client e then tb_udp_client os out fuel fuel epoll else others.tb_udp_m_client
  run_client fuel udt e =
      if is_client e then tb_udt_client os udt_library fuel else others.tb_udt_m_client
  run_client fuel a_udt e = tb_abort_thread os
  run_client fuel e_udp e = tb_abort_thread os

  pub tb_client : ℕ → Cmd os ℤ
  unfolding create_data run_client tb_exit_thread
  tb_client fuel =
      create_data
      >> (λ s. (run_client fuel s.protocol.protocol s.e_type >>= λ total. tb_exit_thread os) s)

  unfoldable pub bind_socket : Protocol → Cmd os (Unit {0})
  unfolding tb_bind
  bind_socket p = if is_utp p then pure tt else tb_bind os >>= λ rc. pure tt

  -- The switch of tb_server, where `rounds` and `fuel` are for the loops of the driver.
  unfoldable pub run_server : ℕ → ℕ → Protocol → EndpointType → Cmd os ℤ
  unfolding tb_abort_thread
  run_server rounds fuel utp e = others.tb_utp_server
  run_server rounds fuel udp e =
      if is_server e then tb_udp_server os fuel else others.tb_udp_m_server
  run_server rounds fuel tcp e =
      if is_server e then tb_stream_server os rounds fuel else others.tb_stream_m_server
  run_server rounds fuel dccp e =
      if is_server e then tb_stream_server os rounds fuel else others.tb_stream_m_server
  run_server rounds fuel udt e =
      if is_server e then tb_udt_server os udt_library rounds fuel else others.tb_udt_m_server
  run_server rounds fuel a_udt e = tb_abort_thread os
  run_server rounds fuel e_udp e = tb_abort_thread os

  pub tb_server : ℕ → ℕ → Cmd os ℤ
  unfolding bind_socket run_server tb_exit_thread
  tb_server rounds fuel s =
      (bind_socket s.protocol.protocol >> (λ t.
          (run_server rounds fuel t.protocol.protocol t.e_type >>= λ total. tb_exit_thread os) t))
        s
