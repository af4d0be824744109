-- ===== src/Protocol.antt =====
-- The dispatcher of src/tb_protocol.c and src/tb_protocol.h: one table of functions per protocol.
pub mod Laws
use fastuserprotocol.Common.{ℕ, Bool, Option, none, some, if◌then◌else◌}
use fastuserprotocol.Common.Int.{ℤ, pos, negsuc, minus_one}

-- PROTOCOL.
pub data Protocol : Type 0 where
  tcp udp udt a_udt utp e_udp dccp : Protocol

-- The number of an enumerator.
abbrev pub protocol_value : Protocol → ℕ
protocol_value tcp = 0
protocol_value udp = 1
protocol_value udt = 2
protocol_value a_udt = 3
protocol_value utp = 4
protocol_value e_udp = 5
protocol_value dccp = 6

-- CONGESTION_CONTROL.
pub data CongestionControl : Type 0 where
  tcp_vegas tcp_cubic udt_daimid udt_adaptive udp_none : CongestionControl

-- PROT_OPT.
pub data ProtOpt : Type 0 where
  use_blocking use_epoll : ProtOpt

pub data SockType : Type 0 where
  sock_stream sock_dgram sock_dccp : SockType

-- The functions that a table may point to.
pub data Callee : Type 0 where
  socket bind connect listen recv send accept close recvfrom sendto : Callee
  udt_socket udt_bind udt_connect udt_listen udt_recv udt_send udt_accept udt_close : Callee
  udt_cleanup tb_utp_socket tb_utp_connect tb_utp_send tb_udp_event : Callee
  tb_socket_error tb_udt_error tb_dccp_error tb_utp_error_handle : Callee

-- `error_no` points to one of two constants, each of value -1.
pub data ErrorNo : Type 0 where
  socket_error udt_error : ErrorNo

-- tb_protocol_t. `none` is the null pointer.
pub record TbProtocol : Type 0 where
  pub protocol : Protocol
  pub type : SockType
  pub error_no : ErrorNo
  pub eot : ℤ
  pub sock_flags : ℤ
  pub prot_opts : ProtOpt
  pub f_sock : Option Callee
  pub f_bind : Option Callee
  pub f_connect : Option Callee
  pub f_send : Option Callee
  pub f_recv : Option Callee
  pub f_listen : Option Callee
  pub f_accept : Option Callee
  pub f_close : Option Callee
  pub f_exit : Option Callee
  pub f_recfrom : Option Callee
  pub f_sendto : Option Callee
  pub f_error : Option Callee
  pub f_opt : Option Callee
  pub f_setup : Option Callee
  pub f_ep_event : Option Callee

-- A table with null pointers only, which each case below fills.
abbrev pub no_calls : Protocol → SockType → TbProtocol
no_calls p t = record {
  protocol = p;
  type = t;
  error_no = socket_error;
  eot = pos 0;
  sock_flags = pos 0;
  prot_opts = use_blocking;
  f_sock = none;
  f_bind = none;
  f_connect = none;
  f_send = none;
  f_recv = none;
  f_listen = none;
  f_accept = none;
  f_close = none;
  f_exit = none;
  f_recfrom = none;
  f_sendto = none;
  f_error = none;
  f_opt = none;
  f_setup = none;
  f_ep_event = none;
}

-- `none` is the default case: the process ends by exit(-1).
unfoldable pub tb_create_protocol : Protocol → Option TbProtocol
tb_create_protocol tcp = some (record (no_calls tcp sock_stream) {
  f_sock = some socket;
  f_bind = some bind;
  f_connect = some connect;
  f_listen = some listen;
  f_recv = some recv;
  f_send = some send;
  f_accept = some accept;
  f_close = some close;
  f_error = some tb_socket_error;
})
tb_create_protocol udp = some (record (no_calls udp sock_dgram) {
  f_sock = some socket;
  f_bind = some bind;
  f_connect = some connect;
  f_send = some send;
  f_close = some close;
  f_recfrom = some recvfrom;
  f_sendto = some sendto;
  f_error = some tb_socket_error;
})
tb_create_protocol udt = some (record (no_calls udt sock_stream) {
  error_no = udt_error;
  eot = negsuc 0;
  f_sock = some udt_socket;
  f_bind = some udt_bind;
  f_connect = some udt_connect;
  f_listen = some udt_listen;
  f_recv = some udt_recv;
  f_send = some udt_send;
  f_accept = some udt_accept;
  f_close = some udt_close;
  f_exit = some udt_cleanup;
  f_error = some tb_udt_error;
})
tb_create_protocol utp = some (record (no_calls utp sock_dgram) {
  eot = negsuc 127;
  f_sock = some tb_utp_socket;
  f_bind = some bind;
  f_connect = some tb_utp_connect;
  f_send = some tb_utp_send;
  f_error = some tb_utp_error_handle;
})
tb_create_protocol e_udp = some (record (no_calls e_udp sock_dgram) {
  prot_opts = use_epoll;
  f_sock = some socket;
  f_bind = some bind;
  f_connect = some connect;
  f_listen = some listen;
  f_close = some close;
  f_sendto = some sendto;
  f_error = some tb_socket_error;
  f_ep_event = some tb_udp_event;
})
tb_create_protocol dccp = some (record (no_calls dccp sock_dccp) {
  f_sock = some socket;
  f_bind = some bind;
  f_connect = some connect;
  f_listen = some listen;
  f_recv = some recv;
  f_send = some send;
  f_accept = some accept;
  f_close = some close;
  f_error = some tb_dccp_error;
})
tb_create_protocol a_udt = none

-- The error functions that `f_error` may point to, on the value that a call returned; `again` says
-- whether errno was EAGAIN. Any other function is no error function.
unfoldable pub tb_error_value : Callee → ℤ → Bool → Option ℤ
tb_error_value tb_socket_error value again = some minus_one
tb_error_value tb_dccp_error value again = some (if again then pos 0 else minus_one)
tb_error_value tb_udt_error value again = some (pos 0)
tb_error_value tb_utp_error_handle value again = some value
tb_error_value _ value again = none
