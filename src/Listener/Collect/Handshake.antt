-- ===== src/Listener/Collect/Handshake.antt =====
-- How the thread of a listener and a collector of its statistics take turns in src/tb_listener.c.
use fastuserprotocol.Common.{
  ◌≡◌, ◌≢◌, refl, true, false, ◌&&◌, if◌then◌else◌, sym, ap, ◌∙◌, Option, none, some, arith,
}
use fastuserprotocol.Common.Int.{ℤ, pos, ◌+ℤ◌}
use mathlib.Core.Path.{subst}
use fastuserprotocol.Stats.Get.{tb_get_stats-keeps}
use fastuserprotocol.Os.{Os, Run, ok}
use fastuserprotocol.Timer.{TbTime}
use fastuserprotocol.Listener.{TbListener, Status, tb_aborting, tb_exiting, tb_connected}
use fastuserprotocol.Listener.Collect.{
  must_wait, goes_on, set_by, next_number, awaited, socket_stats, stats_socket, collect, collect_by,
  time_collection, tb_ex_get_stat_cpy, tb_set_l_stats,
}

abbrev pub GoesOn : Status → Type 0
GoesOn st = (st ≢ tb_aborting) × (st ≢ tb_exiting)

goes_on-true : (st : Status) → GoesOn st → goes_on st ≡ true
goes_on-true st h = ground arith

-- A listener that will set its statistics again.
abbrev pub IsRunning : TbListener → Type 0
IsRunning l = GoesOn l.status

module _ {World : Type 0} (os : Os World) where
  -- What setting the statistics leaves for a collector.
  abbrev Published : TbListener → Run World TbListener → Type 0
  Published l (ok l' w') =
      (l'.read ≡ false)
      × (l'.stats.current_read ≡ l.total_tx_rx)
      × (l'.l_status ≡ l.status)
      × (l'.status ≡ l.status)
  Published l _ = Unit {0}

  socket_stats-Published :
      (l m : TbListener) (fd : Option ℤ) (w : World)
      → m.stats.current_read ≡ l.total_tx_rx
      → m.status ≡ l.status
      → Published l (socket_stats os m fd w)
  socket_stats-Published l m none w e s = tt
  socket_stats-Published l m (some fd) w e s =
      (refl, (tb_get_stats-keeps os m.stats fd w).3 ∙ e, s, s)

  tb_set_l_stats-Published : (l : TbListener) (w : World) → Published l (tb_set_l_stats os l w)
  unfolding tb_set_l_stats set_by
  tb_set_l_stats-Published l w = go l.status
    where
      go : (st : Status) → Published l (set_by os st l w)
      go tb_connected =
          socket_stats-Published l
            (record l { stats = record l.stats { current_read = l.total_tx_rx } }) (stats_socket l)
            w refl refl
      go _ = (refl, refl, refl, refl)

  pub tb_set_l_stats-read :
      (l l' : TbListener) (w w' : World)
      → tb_set_l_stats os l w ≡ ok l' w'
      → (l'.read ≡ false)
        × (l'.stats.current_read ≡ l.total_tx_rx)
        × (l'.l_status ≡ l.status)
        × (l'.status ≡ l.status)
  tb_set_l_stats-read l l' w w' set = subst (Published l) set (tb_set_l_stats-Published l w)

  module _ (wait : TbListener → World → TbListener × World) where
    fresh-collect :
        (l : TbListener) (v : World) (t : TbTime)
        → l.read ≡ false
        → l.stats.stat_time ≡ some t
        → let r = time_collection os t v in
          tb_ex_get_stat_cpy os wait l v
          ≡ ok
              (record (next_number l) {
                stats = record (next_number l).stats { stat_time = some r.0 };
                read = true;
              })
              r.1
    unfolding tb_ex_get_stat_cpy collect collect_by
    fresh-collect l v t fresh timer =
        subst (λ r. collect os (next_number r.0) r.1 ≡ expected) (sym fresh_awaited)
          (subst (λ o. collect_by os o (next_number l) v ≡ expected) (sym timer) refl)
      where
        expected : Run World TbListener
        expected =
            let r = time_collection os t v in
            ok
              (record (next_number l) {
                stats = record (next_number l).stats { stat_time = some r.0 };
                read = true;
              })
              r.1

        fresh_awaited : awaited os wait l v ≡ (l, v)
        fresh_awaited = ap (λ b. if b && goes_on l.status then wait l v else (l, v)) fresh

    -- Statistics that the listener has set are collected without a wait: the copy has the next
    -- number, the bytes and the status that the listener set, and from then on a listener that is
    -- neither aborting nor exiting makes the next collector wait. This holds whenever setting them
    -- succeeds and they have their timer.
    pub set-collect :
        (l l' : TbListener) (w w' v : World) (t : TbTime)
        → tb_set_l_stats os l w ≡ ok l' w'
        → l'.stats.stat_time ≡ some t
        → IsRunning l
        → (m : TbListener) × (v' : World) × (tb_ex_get_stat_cpy os wait l' v ≡ ok m v')
          × (m.stats.id ≡ l'.stats.id +ℤ pos 1)
          × (m.stats.current_read ≡ l.total_tx_rx)
          × (m.l_status ≡ l.status)
          × (must_wait m ≡ true)
    set-collect l l' w w' v t set timer run =
        let (fresh, bytes, status, kept) = tb_set_l_stats-read l l' w w' set in
        (
          _,
          _,
          fresh-collect l' v t fresh timer,
          refl,
          bytes,
          status,
          subst (λ st. goes_on st ≡ true) (sym kept) (goes_on-true l.status run),
        )
