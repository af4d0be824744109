-- ===== src/Timer/Laws.antt =====
-- What a timer of src/tb_common.c measures.
use fastuserprotocol.Common.{ℕ, ◌+◌, ◌/◌, ◌%◌, ◌≡◌, true, refl, ap, arith}
use fastuserprotocol.Common.Int.{pos}
use fastuserprotocol.Os.{Os, Timespec}
use fastuserprotocol.Timer.{TbTime, tb_start_time, tb_finish_time}

-- The reading that a clock shows `d` nanoseconds later: full seconds are carried.
abbrev pub later : ℕ → Timespec → Timespec
later d t = record {
  tv_sec = t.tv_sec + (t.tv_nsec + d) / 1_000_000_000;
  tv_nsec = (t.tv_nsec + d) % 1_000_000_000;
}

module _ {World : Type 0} (os : Os World) where
  -- A timer that is started, and finished when the clock shows `d` nanoseconds more, has `d` as its
  -- `n_sec`, however the seconds are carried and whatever it held before, and is started and stopped.
  pub elapsed :
      (t : TbTime) (w v : World) (d : ℕ)
      → (os.clock_gettime v).0 ≡ later d (os.clock_gettime w).0
      → let r = (tb_finish_time os (tb_start_time os t w).0 v).0 in
        (r.n_sec ≡ pos d) × (r.started ≡ true) × (r.stopped ≡ true)
  unfolding tb_start_time tb_finish_time
  elapsed t w v d e =
      let sec = ap (λ x. x.tv_sec) e in
      let nsec = ap (λ x. x.tv_nsec) e in (ground (arith, sec, nsec), refl, refl)
