-- ===== src/Listener.antt =====
-- src/tb_listener.h and src/tb_listener.c: the state of an endpoint, and its creation.
pub mod Net
pub mod Collect
pub mod Sample
pub mod Endpoint
mod Tests
use Prim.Native.String.{String}
use fastuserprotocol.Common.{
  ℕ, ◌+◌, Bool, true, false, not, ◌&&◌, Option, none, some, List, ◌==◌, if◌then◌else◌, leb,
}
use Prim.Native.Nat.{bit_and}
use fastuserprotocol.Common.Int.{ℤ, pos, minus_one, ◌*ℤ◌, ◌==ℤ◌, ltb_ℤ, to_int}
use fastuserprotocol.Protocol.{Protocol, CongestionControl, TbProtocol, tb_create_protocol, a_udt}
use fastuserprotocol.Os.{AddrInfo}
use fastuserprotocol.Timer.{TbTime, tb_create_time}
use fastuserprotocol.SockOpt.{TbOptions}
use fastuserprotocol.Stats.{TbProtStats, tb_create_stats}
use fastuserprotocol.Session.{TbSession, TbSessionList, empty_list}

-- ENDPOINT_TYPE.
pub data EndpointType : Type 0 where
  server client m_server m_client : EndpointType

-- STATUS.
pub data Status : Type 0 where
  tb_created tb_starting tb_connected tb_disconnected : Status
  tb_listening tb_exiting tb_aborting tb_polling : Status

-- COMMAND, without TB_E_LOOP, which is a mask only.
pub data Command : Type 0 where
  tb_continue tb_abort tb_exit : Command

abbrev pub command_value : Command → ℕ
command_value tb_continue = 1
command_value tb_abort = 2
command_value tb_exit = 4

-- command & TB_E_LOOP, where TB_E_LOOP is TB_ABORT | TB_EXIT.
abbrev pub leaves_loop : Command → Bool
leaves_loop c = not (bit_and (command_value c) 6 == 0)

-- tb_test_params_t.
pub record TbTestParams : Type 0 where
  pub type : EndpointType
  pub protocol : Protocol
  pub control : CongestionControl
  pub address : Option String
  pub port : Option String
  pub l4_r_b_size : ℤ
  pub l4_w_b_size : ℤ
  pub l3_r_b_size : ℤ
  pub l3_w_b_size : ℤ
  pub d_size : ℤ
  pub file_name : Option String
  pub print_stats : Bool
  pub log_enable : Bool
  pub pack_size : ℤ

-- tb_listener_t, less its locks, threads, processors and log. `contents` is what `data` points to.
-- `callbacks_set` says whether `f_exit` and `f_abort` have been set to tb_exit and tb_abort; a
-- call of one that is not set is undefined.
pub record TbListener : Type 0 where
  pub e_type : EndpointType
  pub bind_address : String
  pub bind_port : String
  pub bufsize : ℤ
  pub protocol : TbProtocol
  pub sock_d : ℤ
  pub options : TbOptions
  pub addr_info : Option AddrInfo
  pub file_size : ℤ
  pub filename : Option String
  pub contents : Option (List ℕ)
  pub total_tx_rx : ℤ
  pub transfer_time : TbTime
  pub connect_time : TbTime
  pub stats : TbProtStats
  pub l_status : Status
  pub read : Bool
  pub monitor : Bool
  pub print_stats : Bool
  pub status : Status
  pub command : Command
  pub s_tx_end : Command
  pub d_exit : Bool
  pub curr_session : Option TbSession
  pub session_list : TbSessionList
  pub callbacks_set : Bool

abbrev fresh_options : Protocol → TbOptions
fresh_options p = record {
  protocol = p;
  l4_r_b_size = pos 0;
  l4_s_b_size = pos 0;
  l3_r_b_size = pos 0;
  l3_s_b_size = pos 0;
  control = CongestionControl.udp_none;
}

-- `none`: tb_create_protocol ends the process. `control` is not set by the source; here it is the
-- value of one that is not used.
unfoldable pub listener_with :
    Option TbProtocol → EndpointType → String → String → Protocol → ℤ → Option TbListener
listener_with none type addr port protocol bufsize = none
listener_with (some table) type addr port protocol bufsize = some (record {
  e_type = type;
  bind_address = addr;
  bind_port = port;
  bufsize = bufsize;
  protocol = table;
  sock_d = minus_one;
  options = fresh_options protocol;
  addr_info = none;
  file_size = pos 0;
  filename = none;
  contents = none;
  total_tx_rx = pos 0;
  transfer_time = tb_create_time;
  connect_time = tb_create_time;
  stats = record tb_create_stats {
    protocol = protocol;
    stat_time = some tb_create_time;
    id = minus_one;
  };
  l_status = tb_created;
  read = false;
  monitor = true;
  print_stats = true;
  status = tb_created;
  command = tb_continue;
  s_tx_end = tb_exit;
  d_exit = true;
  curr_session = none;
  session_list = empty_list;
  callbacks_set = false;
})

unfoldable pub tb_create_listener :
    EndpointType → String → String → Protocol → ℤ → Option TbListener
unfolding listener_with
tb_create_listener type addr port protocol bufsize =
    listener_with (tb_create_protocol protocol) type addr port protocol bufsize

-- What creating an endpoint comes to: an assertion fails, the process ends, or a listener.
pub data Created : Type 0 where
  assert_failed process_exit : Created
  created : TbListener → Created

-- The assertions on the size of the data: a size of more than 0 without a file, and no more than 0
-- with one.
abbrev pub size_fits : TbTestParams → Bool
size_fits p = elim p.file_name [
  | none ↦ ltb_ℤ (pos 0) p.d_size
  | some _ ↦ not (ltb_ℤ (pos 0) p.d_size)
]

-- What tb_create_endpoint sets in a listener that is made.
abbrev pub with_params : TbTestParams → TbListener → TbListener
with_params p l = record l {
  file_size = to_int (p.d_size *ℤ pos 1024);
  filename = p.file_name;
  bufsize = if p.pack_size ==ℤ pos 0 then pos 1408 else p.pack_size;
  options = record l.options {
    l3_r_b_size = p.l3_r_b_size;
    l3_s_b_size = p.l3_w_b_size;
    l4_s_b_size = p.l4_w_b_size;
    l4_r_b_size = p.l4_r_b_size;
    control = p.control;
  };
  print_stats = p.print_stats;
  d_exit = false;
}

abbrev pub make_endpoint : TbTestParams → Option TbListener → Created
make_endpoint p none = process_exit
make_endpoint p (some l) = created (with_params p l)

-- The assertions that `type` and `protocol` are enumerators hold in the model by their types.
unfoldable pub create_with : Option String → Option String → Bool → TbTestParams → Created
unfolding tb_create_listener
create_with none port fits p = assert_failed
create_with (some addr) none fits p = assert_failed
create_with (some addr) (some port) false p = assert_failed
create_with (some addr) (some port) true p =
    make_endpoint p (tb_create_listener p.type addr port p.protocol p.pack_size)

unfoldable pub tb_create_endpoint : TbTestParams → Created
unfolding create_with
tb_create_endpoint p = create_with p.address p.port (size_fits p) p
