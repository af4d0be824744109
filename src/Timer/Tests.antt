-- ===== src/Timer/Tests.antt =====
-- A timer of src/tb_common.c on a clock that moves.
use fastuserprotocol.Common.{ℕ, ◌*◌, ◌%◌, refl, ◌≡◌, true, List, [], ◌∷◌, length}
use fastuserprotocol.Common.Int.{pos}
use fastuserprotocol.Os.{Os}
use fastuserprotocol.Os.Sample.{two_at_once}
use fastuserprotocol.Timer.{tb_create_time, tb_start_time, tb_finish_time}
use fastuserprotocol.Timer.Laws.{elapsed}

-- The clock depends on how long the world is.
abbrev moving : Os (List ℕ)
moving = record two_at_once {
  clock_gettime =
      λ w. (record { tv_sec = 2 * length w; tv_nsec = 600_000_000 * length w % 1_000_000_000 }, w);
}

elapsed_example :
    let r =
      (tb_finish_time moving (tb_start_time moving tb_create_time (1 ∷ [])).0 (1 ∷ 2 ∷ [])).0 in
    (r.n_sec ≡ pos 1_600_000_000) × (r.started ≡ true) × (r.stopped ≡ true)
elapsed_example = elapsed moving tb_create_time (1 ∷ []) (1 ∷ 2 ∷ []) 1_600_000_000 refl
