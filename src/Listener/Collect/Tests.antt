-- ===== src/Listener/Collect/Tests.antt =====
-- Statistics of src/tb_listener.c on concrete listeners.
use fastuserprotocol.Common.{
  ℕ, ◌≡◌, refl, true, none, some, List, [], ◌∷◌, ◌==◌, if◌then◌else◌, arith,
}
use fastuserprotocol.Common.Int.{pos, ◌+ℤ◌}
use fastuserprotocol.Os.{ok}
use fastuserprotocol.Os.Sample.{two_at_once}
use fastuserprotocol.Timer.{tb_create_time}
use fastuserprotocol.Stats.{tb_create_stats}
use fastuserprotocol.Stats.Get.{tb_get_stats, tb_get_bsd_stats, get_tcp_stats}
use fastuserprotocol.Session.{
  TbSession, Store, session_connected, session_disconnected, tb_create_session,
}
use fastuserprotocol.Session.Chain.{IsList}
use fastuserprotocol.Session.Walk.Laws.{AllIn}
use fastuserprotocol.Listener.{TbListener, tb_connected}
use fastuserprotocol.Listener.Sample.{tcp_client}
use fastuserprotocol.Listener.Collect.{
  publish, must_wait, set_by, tb_set_l_stats, tb_ex_get_stat_cpy, tb_get_time_stats,
}
use fastuserprotocol.Listener.Collect.Handshake.{set-collect}
use fastuserprotocol.Listener.Collect.Times.{IsTimed, tb_get_time_stats-IsTimed}

-- A connected session with 40 bytes, and one that is over with 2.
abbrev running : TbSession
running = record tb_create_session {
  status = session_connected;
  total_bytes = pos 40;
  n_session = 2;
  stats = some (record tb_create_stats { n_stats = 2 });
}

abbrev ended : TbSession
ended = record tb_create_session { status = session_disconnected; total_bytes = pos 2 }

abbrev two : Store
two a = if a == 1 then some running else if a == 2 then some ended else none

abbrev busy : TbListener
busy = record (tcp_client []) {
  status = tb_connected;
  total_tx_rx = pos 7;
  stats = record tb_create_stats { stat_time = some tb_create_time };
  session_list = record {
    current_max_id = pos 1;
    num_sessions = 2;
    start = 1;
    end = 2;
    num_active_conn = pos 1;
  };
}

busy-IsList : IsList (record { list = busy.session_list; store = two }) (1 ∷ 2 ∷ [])
busy-IsList = record {
  chain = (
    refl,
    omega arith,
    (
      running,
      record tb_create_stats { n_stats = 2 },
      refl,
      refl,
      refl,
      (refl, omega arith, (ended, tb_create_stats, refl, refl, refl, refl)),
    ),
  );
  distinct = (refl, (refl, tt));
  last = refl;
  count = refl;
}

tb_get_time_stats-IsTimed_example :
    (l' : TbListener) × (g : Store) × (tb_get_time_stats busy two ≡ ok l' g)
    × IsList (record { list = l'.session_list; store = g }) (1 ∷ 2 ∷ [])
    × AllIn IsTimed g (1 ∷ 2 ∷ [])
    × (l'.stats.connect_time ≡ pos 0)
    × (l'.stats.transfer_time ≡ pos 0)
tb_get_time_stats-IsTimed_example = tb_get_time_stats-IsTimed busy two (1 ∷ 2 ∷ []) busy-IsList (
  (running, refl, (tb_create_time, tb_create_time, refl, refl)),
  ((ended, refl, (tb_create_time, tb_create_time, refl, refl)), tt),
)

-- What `busy` is once its statistics are set.
abbrev set_once : TbListener
set_once = publish (record busy {
  stats = (tb_get_stats two_at_once (record busy.stats { current_read = pos 7 }) (pos 3) []).0;
})

set-collect_example :
    (m : TbListener) × (v' : List ℕ) × (tb_ex_get_stat_cpy two_at_once (λ l w. (l, w)) set_once []
      ≡ ok m v')
    × (m.stats.id ≡ set_once.stats.id +ℤ pos 1)
    × (m.stats.current_read ≡ pos 7)
    × (m.l_status ≡ tb_connected)
    × (must_wait m ≡ true)
unfolding tb_set_l_stats set_by tb_get_stats tb_get_bsd_stats get_tcp_stats
set-collect_example =
    set-collect two_at_once (λ l w. (l, w)) busy set_once [] [] [] tb_create_time refl refl
      (ground arith, ground arith)
