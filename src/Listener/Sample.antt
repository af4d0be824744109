-- ===== src/Listener/Sample.antt =====
-- Listeners for the tests.
use fastuserprotocol.Common.{[], ℕ, ◌≡◌, refl, true, false, none, some, List, length}
use fastuserprotocol.Common.Int.{negsuc, minus_one, pos}
use fastuserprotocol.Protocol.{
  udt, udt_error, udt_socket, udt_bind, udt_connect, udt_listen, udt_recv, udt_send, udt_accept,
  udt_close, udt_cleanup, tb_udt_error, TbProtocol, no_calls, tcp, udp, sock_stream, connect, send,
  recv, close, listen, accept, bind, socket, tb_socket_error, udp_none, sock_dgram, recvfrom,
  sendto, tb_create_protocol,
}
use fastuserprotocol.Os.Sample.{some_address}
use fastuserprotocol.Timer.{tb_create_time}
use fastuserprotocol.Stats.{tb_create_stats}
use fastuserprotocol.Session.{empty_list}
use fastuserprotocol.SockOpt.{TbOptions}
use fastuserprotocol.Listener.{
  tb_create_listener, TbListener, client, tb_created, tb_continue, tb_exit,
}
use fastuserprotocol.Listener.Net.Laws.{IsTcpClient}

abbrev tcp_table : TbProtocol
tcp_table = record (no_calls tcp sock_stream) {
  f_sock = some socket;
  f_bind = some bind;
  f_connect = some connect;
  f_listen = some listen;
  f_recv = some recv;
  f_send = some send;
  f_accept = some accept;
  f_close = some close;
  f_error = some tb_socket_error;
}

abbrev pub no_options : TbOptions
no_options = record {
  protocol = tcp;
  l4_r_b_size = pos 0;
  l4_s_b_size = pos 0;
  l3_r_b_size = pos 0;
  l3_s_b_size = pos 0;
  control = udp_none;
}

-- A client for TCP with its socket made, and a buffer of three bytes.
abbrev pub tcp_client : List ℕ → TbListener
tcp_client bytes = record {
  e_type = client;
  bind_address = "localhost";
  bind_port = "5000";
  bufsize = pos 3;
  protocol = tcp_table;
  sock_d = pos 3;
  options = no_options;
  addr_info = some some_address;
  file_size = pos (length bytes);
  filename = none;
  contents = some bytes;
  total_tx_rx = pos 0;
  transfer_time = tb_create_time;
  connect_time = tb_create_time;
  stats = tb_create_stats;
  l_status = tb_created;
  read = false;
  monitor = true;
  print_stats = true;
  status = tb_created;
  command = tb_continue;
  s_tx_end = tb_exit;
  d_exit = false;
  curr_session = none;
  session_list = empty_list;
  callbacks_set = true;
}

pub tcp_client-IsTcpClient : (bytes : List ℕ) → IsTcpClient (tcp_client bytes)
tcp_client-IsTcpClient bytes = record {
  f_connect = refl;
  f_send = refl;
  f_close = refl;
  f_error = refl;
  callbacks = refl;
}

abbrev pub udp_table : TbProtocol
udp_table = record (no_calls udp sock_dgram) {
  f_sock = some socket;
  f_bind = some bind;
  f_connect = some connect;
  f_send = some send;
  f_close = some close;
  f_recfrom = some recvfrom;
  f_sendto = some sendto;
  f_error = some tb_socket_error;
}

udp_table_lem : tb_create_protocol udp ≡ some udp_table
unfolding tb_create_protocol
udp_table_lem = refl

abbrev udt_table : TbProtocol
udt_table = record (no_calls udt sock_stream) {
  error_no = udt_error;
  eot = negsuc 0;
  f_sock = some udt_socket;
  f_bind = some udt_bind;
  f_connect = some udt_connect;
  f_listen = some udt_listen;
  f_recv = some udt_recv;
  f_send = some udt_send;
  f_accept = some udt_accept;
  f_close = some udt_close;
  f_exit = some udt_cleanup;
  f_error = some tb_udt_error;
}

-- What tb_create_listener makes for a UDT client with no pack size.
abbrev pub udt_listener : TbListener
udt_listener = record (tcp_client []) {
  bufsize = pos 0;
  protocol = udt_table;
  sock_d = minus_one;
  options = record no_options { protocol = udt };
  addr_info = none;
  contents = none;
  stats = record tb_create_stats {
    protocol = udt;
    stat_time = some tb_create_time;
    id = minus_one;
  };
  d_exit = true;
  callbacks_set = false;
}

pub udt_listener_lem : tb_create_listener client "localhost" "5000" udt (pos 0) ≡ some udt_listener
unfolding tb_create_listener tb_create_protocol
udt_listener_lem = refl
