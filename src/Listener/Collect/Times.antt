-- ===== src/Listener/Collect/Times.antt =====
-- What tb_get_time_stats of src/tb_listener.c collects.
use fastuserprotocol.Common.{◌+◌, ◌≡◌, refl, some, List, [], ◌∷◌, arith}
use fastuserprotocol.Os.{ok}
use fastuserprotocol.Timer.{TbTime}
use fastuserprotocol.Stats.{Ptr, TbProtStats}
use fastuserprotocol.Session.{TbSession, Store, Sessions}
use fastuserprotocol.Session.Chain.{IsList}
use fastuserprotocol.Session.Walk.{each_session}
use fastuserprotocol.Session.Walk.Laws.{AllIn, Works, Walked, Outcome, each_session-Walked}
use fastuserprotocol.Listener.{TbListener}
use fastuserprotocol.Listener.Collect.{session_times, with_times, tb_get_time_stats}

-- A session that has both its timers.
abbrev pub HasTimers : TbSession → Type 0
HasTimers c = (k : TbTime) × (m : TbTime) × (c.connect_t ≡ some k) × (c.transfer_t ≡ some m)

-- The statistics of a session show what its timers measured.
abbrev pub IsTimed : TbSession → Type 0
IsTimed c =
    (t : TbProtStats) × (k : TbTime) × (m : TbTime) × (c.stats ≡ some t)
    × (c.connect_t ≡ some k)
    × (c.transfer_t ≡ some m)
    × (t.connect_time ≡ k.n_sec)
    × (t.transfer_time ≡ m.n_sec)

abbrev Timing : TbSession → Unit {0} → TbSession → Unit {0} → Type 0
Timing c s c' s' = IsTimed c'

session_times-Works : Works HasTimers Timing session_times
unfolding session_times
session_times-Works c t s (k, m, kat, mat) st =
    let t' = record t { connect_time = k.n_sec; transfer_time = m.n_sec } in
    (
      record c { stats = some t' },
      t',
      s,
      ground (arith, st, kat, mat),
      refl,
      refl,
      refl,
      (t', k, m, refl, kat, mat, refl, refl),
    )

Walked-IsTimed :
    (h g : Store) (xs : List Ptr) (s s' : Unit {0}) → Walked Timing h g xs s s' → AllIn IsTimed g xs
Walked-IsTimed h g [] s s' w = tt
Walked-IsTimed h g (x ∷ xs) s s' (c, c', m, at, gat, timed, w) =
    ((c', gat, timed), Walked-IsTimed h g xs m s' w)

abbrev with_store : TbListener → Store → Sessions
with_store l h = record { list = l.session_list; store = h }

-- On a well-formed list whose sessions all have their timers, collecting the times ends and reads no
-- bad pointer; the list stays well formed, and the statistics of each session and of the listener
-- then show the times that their own timers measured.
pub tb_get_time_stats-IsTimed :
    (l : TbListener) (h : Store) (xs : List Ptr)
    → IsList (record { list = l.session_list; store = h }) xs
    → AllIn HasTimers h xs
    → (l' : TbListener) × (g : Store) × (tb_get_time_stats l h ≡ ok l' g)
      × IsList (record { list = l'.session_list; store = g }) xs
      × AllIn IsTimed g xs
      × (l'.stats.connect_time ≡ l.connect_time.n_sec)
      × (l'.stats.transfer_time ≡ l.transfer_time.n_sec)
unfolding tb_get_time_stats
tb_get_time_stats-IsTimed l h xs list timers = finish (
    each_session-Walked HasTimers Timing session_times session_times-Works
      (l.session_list.num_sessions + 1) h l.session_list.start xs tt (omega (arith, list.count))
      list.chain list.distinct timers)
  where
    finish :
        Outcome Timing h l.session_list.start xs tt
          (each_session (l.session_list.num_sessions + 1) session_times l.session_list.start h tt)
        → (l' : TbListener) × (g : Store) × (tb_get_time_stats l h ≡ ok l' g)
          × IsList (with_store l' g) xs
          × AllIn IsTimed g xs
          × (l'.stats.connect_time ≡ l.connect_time.n_sec)
          × (l'.stats.transfer_time ≡ l.transfer_time.n_sec)
    finish (g, s, run, chain, outside, walked) = (
      with_times l,
      g,
      rw (run, tb_get_time_stats) refl,
      record { chain = chain; distinct = list.distinct; last = list.last; count = list.count },
      Walked-IsTimed h g xs tt s walked,
      refl,
      refl,
    )
