-- ===== src/Session.antt =====
-- src/tb_session.h and src/tb_session.c: a session, and the linked list of the sessions of a
-- listener, over a store of sessions by address.
pub mod Chain
pub mod Laws
pub mod Ledger
pub mod Race
pub mod Walk
pub mod Create
pub mod Counts
mod Tests
use Prim.Native.String.{String}
use fastuserprotocol.Common.{
  ℕ, zero, suc, ◌+◌, Bool, true, false, Option, none, some, List, [], ◌==◌, if◌then◌else◌,
}
use fastuserprotocol.Common.Int.{ℤ, pos, minus_one, ◌+ℤ◌, ◌-ℤ◌, ◌==ℤ◌}
use fastuserprotocol.Os.{AddrInfo, Run, ok, fault, out_of_fuel}
use fastuserprotocol.Timer.{TbTime, tb_create_time}
use fastuserprotocol.Stats.{Ptr, TbProtStats, tb_create_stats}

-- tb_session_status.
pub data SessionStatus : Type 0 where
  session_created session_addr_res session_connected : SessionStatus
  session_complete session_disconnected : SessionStatus

-- tb_session_t, less its locks and threads, the pointers that it shares with its listener, and the
-- fields that the program only prints.
pub record TbSession : Type 0 where
  pub id : ℤ
  pub address : String
  pub port : String
  pub addr_info : Option AddrInfo
  pub sock_d : ℤ
  pub pack_size : ℤ
  pub contents : List ℕ
  pub data_size : ℕ
  pub last_trans : ℤ
  pub total_bytes : ℤ
  pub stats : Option TbProtStats
  pub status : SessionStatus
  pub n_session : Ptr
  pub transfer_t : Option TbTime
  pub connect_t : Option TbTime

-- What malloc leaves in the fields that no constructor below sets is zero here.
abbrev pub tb_create_server_session : TbSession
tb_create_server_session = record {
  id = pos 0;
  address = "";
  port = "";
  addr_info = none;
  sock_d = pos 0;
  pack_size = pos 0;
  contents = [];
  data_size = 0;
  last_trans = pos 0;
  total_bytes = pos 0;
  stats = none;
  status = session_created;
  n_session = 0;
  transfer_t = none;
  connect_t = none;
}

abbrev pub tb_create_session : TbSession
tb_create_session = record tb_create_server_session {
  stats = some tb_create_stats;
  transfer_t = some tb_create_time;
  connect_t = some tb_create_time;
}

-- tb_session_list_t.
pub record TbSessionList : Type 0 where
  pub current_max_id : ℤ
  pub num_sessions : ℕ
  pub start : Ptr
  pub end : Ptr
  pub num_active_conn : ℤ

abbrev pub Store : Type 0
Store = Ptr → Option TbSession

-- A list with the memory that it lives in.
pub record Sessions : Type 0 where
  pub list : TbSessionList
  pub open list use *
  pub store : Store

abbrev pub empty_list : TbSessionList
empty_list = record {
  current_max_id = minus_one;
  num_sessions = 0;
  start = 0;
  end = 0;
  num_active_conn = pos 0;
}

abbrev pub write : Store → Ptr → TbSession → Store
write h p s q = if p == q then some s else h q

-- The pointer to the statistics of the session at an address.
abbrev pub stats_ptr : Ptr → TbSession → Ptr
stats_ptr p s = elim s.stats [ none ↦ 0 | some _ ↦ p ]

-- list->end->n_session = session; list->end->stats->n_stats = session->stats;
abbrev pub link_to : TbSession → TbProtStats → Ptr → Ptr → TbSession
link_to e t p stats = record e { stats = some (record t { n_stats = stats }); n_session = p }

abbrev added : TbSessionList → Ptr → Ptr → TbSessionList
added l start end = record l { start = start; end = end; num_sessions = l.num_sessions + 1 }

append_end : Ptr → TbSession → Sessions → Run Sessions (Unit {0})
append_end p session s = elim (s.store s.end) [
  | none ↦ fault
  | some e ↦ elim e.stats [
    | none ↦ fault
    | some t ↦ ok tt (record {
      list = added s.list s.start p;
      store = write s.store s.end (link_to e t p (stats_ptr p session));
    })
  ]
]

unfoldable pub tb_session_add_to : Ptr → Sessions → Run Sessions (Unit {0})
unfolding append_end
tb_session_add_to p s = elim (s.store p) [
  | none ↦ fault
  | some session ↦
      if s.start == 0 then ok tt (record s { list = added s.list p p }) else append_end p session s
]

-- The new number is written to the session before the list is changed.
unfoldable pub tb_session_add : Ptr → Sessions → Run Sessions (Unit {0})
unfolding tb_session_add_to
tb_session_add p s = elim (s.store p) [
  | none ↦ fault
  | some session ↦
      let id = s.current_max_id +ℤ pos 1 in
      tb_session_add_to p (record {
        list = record s.list { current_max_id = id };
        store = write s.store p (record session { id = id });
      })
]

-- Without its lock: see Session/Race for what the lock does.
abbrev pub tb_session_list_inc : TbSessionList → ℤ × TbSessionList
tb_session_list_inc l = let n = l.num_active_conn +ℤ pos 1 in (n, record l { num_active_conn = n })

abbrev pub tb_session_list_dec : TbSessionList → ℤ × TbSessionList
tb_session_list_dec l = let n = l.num_active_conn -ℤ pos 1 in (n, record l { num_active_conn = n })

-- The loop of tb_session_list_search from a session on, with fuel.
search_from : ℕ → Store → ℤ → Ptr → Run (Unit {0}) Ptr
search_from zero h id p = out_of_fuel
search_from (suc fuel) h id p = if p == 0 then ok 0 tt else elim (h p) [
  | none ↦ fault
  | some s ↦ let rest = search_from fuel h id s.n_session in if s.id ==ℤ id then ok p tt else rest
]

-- The list is no longer than its count says, so one round more is enough.
unfoldable pub tb_session_list_search : Sessions → ℤ → Run (Unit {0}) Ptr
unfolding search_from
tb_session_list_search s id = search_from (s.num_sessions + 1) s.store id s.start
