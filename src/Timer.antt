-- ===== src/Timer.antt =====
-- tb_time_t of src/tb_common.h and its functions in src/tb_common.c.
pub mod Laws
mod Tests
use fastuserprotocol.Common.{ℕ, ◌+◌, ◌*◌, Bool, true, false}
use fastuserprotocol.Common.Int.{ℤ, pos, sub_ℕ}
use fastuserprotocol.Os.{Os, Timespec}

-- tb_time_t; each timer of the program reads CLOCK_MONOTONIC. What malloc leaves in `start`,
-- `finish` and `stopped` is nowhere read before it is set, and is zero here.
pub record TbTime : Type 0 where
  pub start : Timespec
  pub finish : Timespec
  pub started : Bool
  pub stopped : Bool
  pub n_sec : ℤ

abbrev zero_time : Timespec
zero_time = record { tv_sec = 0; tv_nsec = 0 }

abbrev pub tb_create_time : TbTime
tb_create_time = record {
  start = zero_time;
  finish = zero_time;
  started = false;
  stopped = false;
  n_sec = pos 0;
}

abbrev pub nano_seconds : Timespec → ℕ
nano_seconds t = t.tv_sec * 1_000_000_000 + t.tv_nsec

unfoldable pub tb_calculate_time : TbTime → TbTime
tb_calculate_time t = record t { n_sec = sub_ℕ (nano_seconds t.finish) (nano_seconds t.start) }

module _ {World : Type 0} (os : Os World) where
  unfoldable pub tb_start_time : TbTime → World → TbTime × World
  tb_start_time t w =
      let now = os.clock_gettime w in (record t { start = now.0; started = true }, now.1)

  unfoldable pub tb_finish_time : TbTime → World → TbTime × World
  unfolding tb_calculate_time
  tb_finish_time t w =
      let now = os.clock_gettime w in
      (record (tb_calculate_time (record t { finish = now.0 })) { stopped = true }, now.1)
