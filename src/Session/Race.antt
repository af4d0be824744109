-- ===== src/Session/Race.antt =====
-- The lock in tb_session_list_inc and tb_session_list_dec of src/tb_session.c, with several threads
-- that run them at once, a shared access at a time. `pthread_mutex_trylock` does not wait, and
-- what it answers is not looked at.
use fastuserprotocol.Common.{ℕ, ◌≡◌, refl, Bool, true, false, ◌==◌, if◌then◌else◌}
use fastuserprotocol.Common.Int.{ℤ, pos, ◌+ℤ◌, ◌-ℤ◌}

pub data CountOp : Type 0 where
  inc dec : CountOp

abbrev pub new_count : CountOp → ℤ → ℤ
new_count inc n = n +ℤ pos 1
new_count dec n = n -ℤ pos 1

-- Where a thread stands: before the lock, after it, with the count read, with the new one written,
-- and back with its return value.
pub data CountPc : Type 0 where
  entry locked : CountPc
  read_count wrote returned : ℤ → CountPc

-- The memory that the threads share.
pub record Shared : Type 0 where
  pub num_active_conn : ℤ
  pub nac_lock : Bool

-- One step of a thread that runs `op`.
pub data Move (op : CountOp) (m : Shared) : CountPc → Shared → CountPc → Type 0 where
  -- A free mutex is taken; of a held one trylock only says so, and the code goes on.
  trylock : Move op m entry (record m { nac_lock = true }) locked
  load : Move op m locked m (read_count m.num_active_conn)
  store :
      {n : ℤ}
      → Move op m
          (read_count n)
          (record m { num_active_conn = new_count op n })
          (wrote (new_count op n))
  unlock : {n : ℤ} → Move op m (wrote n) (record m { nac_lock = false }) (returned n)

-- The threads by number, each with the function that it runs.
pub record System : Type 0 where
  pub mem : Shared
  pub pc : ℕ → CountPc

abbrev pub move_to : (ℕ → CountPc) → ℕ → CountPc → ℕ → CountPc
move_to f i p j = if i == j then p else f j

pub data Step (ops : ℕ → CountOp) (s : System) : System → Type 0 where
  pick :
      (i : ℕ) {m : Shared} {p : CountPc}
      → Move (ops i) s.mem (s.pc i) m p
      → Step ops s (record { mem = m; pc = move_to s.pc i p })

pub data Reach (ops : ℕ → CountOp) (s : System) : System → Type 0 where
  here : Reach ops s s
  next : {t u : System} → Reach ops s t → Step ops t u → Reach ops s u

abbrev pub start : ℤ → System
start n = record { mem = record { num_active_conn = n; nac_lock = false }; pc = λ _. entry }

-- The update of one of two threads can be lost: from every count, two threads that run the same
-- function, both from its start, can both return with the value that one of them alone would
-- give, which is also the count that they leave. So of two last sessions of a server that end at
-- once, at count 2, neither may see the count 0.
pub update_lost :
    (op : CountOp) (n : ℤ)
    → (s : System) × Reach (λ _. op) (start n) s
      × (s.pc 0 ≡ returned (new_count op n))
      × (s.pc 1 ≡ returned (new_count op n))
      × (s.mem.num_active_conn ≡ new_count op n)
update_lost op n = (
  _,
  next
      (next
        (next
          (next
            (next (next (next (next here (pick 0 trylock)) (pick 1 trylock)) (pick 0 load))
              (pick 1 load))
            (pick 0 store))
          (pick 1 store))
        (pick 0 unlock))
      (pick 1 unlock),
  refl,
  refl,
  refl,
)
