-- ===== src/Listener/Collect.antt =====
-- The statistics of src/tb_listener.c: how a thread sets those of its listener, and how another one
-- collects them.
pub mod Sums
mod Tests
pub mod Times
pub mod Handshake
use fastuserprotocol.Common.{
  ℕ, ◌+◌, Bool, true, false, not, ◌&&◌, Option, none, some, if◌then◌else◌, ◌==◌,
}
use fastuserprotocol.Common.Int.{ℤ, pos, ◌+ℤ◌, ◌==ℤ◌, div_int}
use fastuserprotocol.Os.{Os, Run, ok, fault, out_of_fuel}
use fastuserprotocol.Timer.{TbTime, tb_start_time, tb_finish_time}
use fastuserprotocol.Stats.{TbProtStats}
use fastuserprotocol.Stats.Get.{tb_get_stats}
use fastuserprotocol.Session.{TbSession, Store, SessionStatus, session_connected}
use fastuserprotocol.Session.Walk.{each_session}
use fastuserprotocol.Listener.{
  TbListener, Status, tb_connected, tb_aborting, tb_exiting, EndpointType, server,
}

-- listener->status != TB_ABORTING && listener->status != TB_EXITING.
abbrev pub goes_on : Status → Bool
goes_on tb_aborting = false
goes_on tb_exiting = false
goes_on _ = true

-- The guard of the wait: the statistics were read since they were last set, and more are to come.
abbrev pub must_wait : TbListener → Bool
must_wait l = l.read && goes_on l.status

-- info->l_status = listener->status; listener->read = 0;
abbrev pub publish : TbListener → TbListener
publish l = record l { l_status = l.status; read = false }

-- The socket of a server with one connection is that of the connection.
abbrev pub stats_socket : TbListener → Option ℤ
stats_socket l = elim l.e_type [
  | server ↦ elim l.curr_session [ none ↦ none | some c ↦ some c.sock_d ]
  | _ ↦ some l.sock_d
]

-- listener->stats->id++;
abbrev pub next_number : TbListener → TbListener
next_number l = record l { stats = record l.stats { id = l.stats.id +ℤ pos 1 } }

module _ {World : Type 0} (os : Os World) where
  -- Start recording time if not started, otherwise get time of collection.
  unfoldable pub time_collection : TbTime → World → TbTime × World
  time_collection t w = if t.started then tb_finish_time os t w else tb_start_time os t w

  -- What both functions do once the wait is over.
  unfoldable pub collect_by : Option TbTime → TbListener → World → Run World TbListener
  collect_by none l w = fault
  collect_by (some t) l w =
      let r = time_collection t w in
      ok (record l { stats = record l.stats { stat_time = some r.0 }; read = true }) r.1

  unfoldable pub collect : TbListener → World → Run World TbListener
  unfolding collect_by
  collect l w = collect_by l.stats.stat_time l w

  module _ (wait : TbListener → World → TbListener × World) where
    -- `wait` is what becomes of the listener and the world while the thread waits.
    abbrev pub awaited : TbListener → World → TbListener × World
    awaited l w = if must_wait l then wait l w else (l, w)

    unfoldable pub tb_ex_get_stats : TbListener → World → Run World TbListener
    tb_ex_get_stats l w = let r = awaited l w in collect r.0 r.1

    -- The copy is the `stats` of the listener that comes back.
    unfoldable pub tb_ex_get_stat_cpy : TbListener → World → Run World TbListener
    tb_ex_get_stat_cpy l w = let r = awaited l w in collect (next_number r.0) r.1

  -- The rest of tb_set_l_stats for a listener that is connected.
  abbrev pub socket_stats : TbListener → Option ℤ → World → Run World TbListener
  socket_stats l none w = fault
  socket_stats l (some fd) w =
      let r = tb_get_stats os l.stats fd w in ok (publish (record l { stats = r.0 })) r.1

  unfoldable pub set_by : Status → TbListener → World → Run World TbListener
  set_by tb_connected l w =
      socket_stats (record l { stats = record l.stats { current_read = l.total_tx_rx } })
        (stats_socket l) w
  set_by _ l w =
      ok (publish (record l { stats = record l.stats { current_read = l.total_tx_rx } })) w

  unfoldable pub tb_set_l_stats : TbListener → World → Run World TbListener
  unfolding set_by
  tb_set_l_stats l w = set_by l.status l w

-- What tb_set_m_stats adds up over the sessions.
pub record Totals : Type 0 where
  pub current_read : ℤ
  pub total_tx_rx : ℤ
  pub send_p_loss : ℤ
  pub recv_p_loss : ℤ
  pub num_sessions : ℤ

abbrev pub no_sums : Totals
no_sums = record {
  current_read = pos 0;
  total_tx_rx = pos 0;
  send_p_loss = pos 0;
  recv_p_loss = pos 0;
  num_sessions = pos 0;
}

abbrev pub add_bytes : Totals → ℤ → Totals
add_bytes a n = record a { current_read = a.current_read +ℤ n; total_tx_rx = a.total_tx_rx +ℤ n }

abbrev pub add_losses : Totals → TbProtStats → Totals
add_losses a t = record a {
  num_sessions = a.num_sessions +ℤ pos 1;
  send_p_loss = a.send_p_loss +ℤ t.send_p_loss;
  recv_p_loss = a.recv_p_loss +ℤ t.recv_p_loss;
}

-- If there are any sessions, a sum over them becomes their average.
abbrev pub average : ℤ → ℤ → ℤ
average num sum = if num ==ℤ pos 0 then sum else div_int sum num

abbrev pub averaged : Totals → Totals
averaged a = record a {
  send_p_loss = average a.num_sessions a.send_p_loss;
  recv_p_loss = average a.num_sessions a.recv_p_loss;
}

abbrev pub with_sums : Totals → TbListener → TbListener
with_sums a l = publish (record l {
  total_tx_rx = a.total_tx_rx;
  stats = record l.stats {
    current_read = a.current_read;
    send_p_loss = a.send_p_loss;
    recv_p_loss = a.recv_p_loss;
  };
})

module _ {World : Type 0} (os : Os World) where
  -- The body of the loop of tb_set_m_stats.
  unfoldable pub session_stats : TbSession → Totals × World → Option (TbSession × (Totals × World))
  session_stats c (a, w) = elim c.status [
    | session_connected ↦ elim c.stats [
      | none ↦ none
      | some t ↦
          let r = tb_get_stats os t c.sock_d w in
          some (record c { stats = some r.0 }, (add_losses (add_bytes a c.total_bytes) r.0, r.1))
    ]
    | _ ↦ some (c, (add_bytes a c.total_bytes, w))
  ]

  -- The state is the store of the sessions and the world.
  unfoldable pub tb_set_m_stats : TbListener → Store → World → Run (Store × World) TbListener
  unfolding session_stats
  tb_set_m_stats l h w =
      let list = l.session_list in
      elim (each_session (list.num_sessions + 1) session_stats list.start h (no_sums, w)) [
        | ok (g, (a, w')) _ ↦ ok (with_sums (averaged a) l) (g, w')
        | out_of_fuel ↦ out_of_fuel
        | _ ↦ fault
      ]

-- The body of the loop of tb_get_time_stats, which has no state beside the store.
unfoldable pub session_times : TbSession → Unit {0} → Option (TbSession × Unit {0})
session_times c s = elim c.stats [
  | none ↦ none
  | some t ↦ elim c.connect_t [
    | none ↦ none
    | some ct ↦ elim c.transfer_t [
      | none ↦ none
      | some tt' ↦ some (
        record c { stats = some (record t { connect_time = ct.n_sec; transfer_time = tt'.n_sec }) },
        s,
      )
    ]
  ]
]

abbrev pub with_times : TbListener → TbListener
with_times l = record l {
  stats = record l.stats {
    connect_time = l.connect_time.n_sec;
    transfer_time = l.transfer_time.n_sec;
  };
}

unfoldable pub tb_get_time_stats : TbListener → Store → Run Store TbListener
unfolding session_times
tb_get_time_stats l h =
    let list = l.session_list in
    elim (each_session (list.num_sessions + 1) session_times list.start h tt) [
      | ok (g, _) _ ↦ ok (with_times l) g
      | out_of_fuel ↦ out_of_fuel
      | _ ↦ fault
    ]
