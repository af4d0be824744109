-- ===== src/TestFile/Laws.antt =====
-- What the test files of src/tb_common.c come to.
use Prim.Native.String.{String}
use fastuserprotocol.Common.{
  ℕ, zero, suc, ◌^◌, ◌<◌, ◌≤◌, ◌≡◌, ◌⊎◌, refl, ap, inl, inr, true, false, Option, none, some, List,
  [], ◌∷◌, arith, length, ltb, if◌then◌else◌,
}
use fastuserprotocol.Common.Int.{ℤ, pos, minus_one, ◌==ℤ◌, to_u64-minus_one}
use fastuserprotocol.Os.{Run, ok, fault}
use fastuserprotocol.TestFile.{
  Files, given, ran, room, is_eof, random_bytes, write_random, tb_create_random, read_random,
  tb_load_random_file, load_sized, tb_load_test_file, with_size, tb_create_test_file,
}

-- What the documentation says of fseek and fread.
pub record IsStdio {World : Type 0} (files : Files World) : Type 0 where
  pub seeks :
      (fd : ℕ) (w : World)
      → ((files.fseek_end fd w).0 ≡ pos 0) ⊎ ((files.fseek_end fd w).0 ≡ minus_one)
  pub reads : (fd n : ℕ) (w : World) → length (files.fread fd n w).0 ≤ n
  pub writes : (fd : ℕ) (xs : List ℕ) (w : World) → (files.fwrite fd xs w).0 ≤ length xs

not_eof : (n : ℕ) → n < 10 ^ 9 → is_eof n ≡ false
not_eof n lt = ground (arith, to_u64-minus_one)

module _ {World : Type 0} (files : Files World) (law : IsStdio files) where
  -- A file that is named is never transferred: either no data is loaded, or none of its bytes, and
  -- the size is then 0, whatever the file holds; the program does nothing undefined.
  pub tb_create_test_file-named :
      (name : String) (size : ℤ) (w : World)
      → (data_of : Option (List ℕ)) × (size' : ℤ) × (w' : World) × (tb_create_test_file files
            (some name)
            size
            w
          ≡ ok (data_of, size') w')
        × ((data_of ≡ none) ⊎ ((data_of ≡ some []) × (size' ≡ pos 0)))
  unfolding tb_create_test_file tb_load_test_file load_sized
  tb_create_test_file-named name size w = by_handle (files.fopen_read (given name) w).0
    where
      u : World
      u = (files.fopen_read (given name) w).1

      no_bytes : (xs : List ℕ) → length xs ≤ 0 → xs ≡ []
      no_bytes [] le = refl
      no_bytes (x ∷ xs) le = absurd (omega arith)

      Loaded : Run World (Option (List ℕ) × ℤ) → Type 0
      Loaded r =
          (data_of : Option (List ℕ)) × (size' : ℤ) × (w' : World) × (r ≡ ok (data_of, size') w')
          × ((data_of ≡ none) ⊎ ((data_of ≡ some []) × (size' ≡ pos 0)))

      by_handle :
          (h : Option ℕ)
          → Loaded (elim h [
            | none ↦ ok (none, size) u
            | some fd ↦
                let r = files.fseek_end fd u in
                if r.0 ==ℤ minus_one
                then ok (none, r.0) r.1
                else load_sized files fd r.0 (room r.0) r.1
          ])
      by_handle none = (none, size, u, refl, inl refl)
      by_handle (some fd) = elim (law.seeks fd u) [
        | inl e ↦
            let v = (files.fseek_start fd (files.fseek_end fd u).1).1 in
            let r = files.fread fd 0 v in
            let nothing : r.0 ≡ [] = no_bytes r.0 (law.reads fd 0 v) in
            rw (e, nothing, not_eof 0 (omega arith)) (some [], pos 0, r.1, refl, inr (refl, refl))
        | inr e ↦ rw e (none, minus_one, (files.fseek_end fd u).1, refl, inl refl)
      ]

  random_bytes-length : (n : ℕ) (w : World) → length (random_bytes files n w).0 ≡ n
  unfolding random_bytes
  random_bytes-length zero w = refl
  random_bytes-length (suc n) w = omega (arith, random_bytes-length n (files.rand w).1)

  -- No data where `fails`, or at most `n` bytes, and all of them where `new`.
  abbrev pub HasBytes : Type 0 → Type 0 → ℕ → Run World (Option (List ℕ)) → Type 0
  HasBytes fails new n r =
      (data_of : Option (List ℕ)) × (w' : World) × (r ≡ ok data_of w')
      × (((data_of ≡ none) × fails)
          ⊎ ((bytes : List ℕ) × (data_of ≡ some bytes)
              × (length bytes ≤ n)
              × (new → length bytes ≡ n)))

  write_random-HasBytes :
      (fails new : Type 0) (n fd : ℕ) (w : World)
      → n < 10 ^ 9
      → HasBytes fails new n (write_random files fd (some n) w)
  unfolding write_random
  write_random-HasBytes fails new n fd w small =
      let r = random_bytes files n w in
      let put = files.fwrite fd r.0 r.1 in
      let size = random_bytes-length n w in
      rw (not_eof put.0 (omega (arith, law.writes fd r.0 r.1, size)))
        (some r.0, put.1, refl, inr (r.0, refl, omega (arith, size), (λ _. size)))

  tb_create_random-HasBytes :
      (fails new : Type 0) (n : ℕ) (w : World)
      → n < 10 ^ 9
      → ((files.fopen_write (ran (pos n)) w).0 ≡ none → fails)
      → HasBytes fails new n (tb_create_random files (ran (pos n)) (pos n) w)
  unfolding tb_create_random
  tb_create_random-HasBytes fails new n w small cannot =
      let u = (files.fopen_write (ran (pos n)) w).1 in
      elim (files.fopen_write (ran (pos n)) w).0
          as (λ h.
            (h ≡ none → fails)
            → HasBytes fails new n
                (elim h [ none ↦ ok none u | some fd ↦ write_random files fd (room (pos n)) u ])) [
                  | none ↦ λ e. (none, u, refl, inl (refl, e refl))
                  | some fd ↦ λ e. write_random-HasBytes fails new n fd u small
                ]
        cannot

  read_random-HasBytes :
      (fails new : Type 0) (n fd : ℕ) (w : World)
      → n < 10 ^ 9
      → (new → ⊥)
      → HasBytes fails new n (read_random files (pos n) fd (some n) w)
  unfolding read_random
  read_random-HasBytes fails new n fd w small old =
      let r = files.fread fd n w in
      rw (not_eof (length r.0) (omega (arith, law.reads fd n w)))
        (some r.0, r.1, refl, inr (r.0, refl, law.reads fd n w, (λ h. absurd (old h))))

  -- Neither can the file for `n` bytes be read, nor can it then be created.
  abbrev pub Unopened : ℕ → World → Type 0
  Unopened n w =
      let r = files.fopen_read (ran (pos n)) w in
      (r.0 ≡ none) × ((files.fopen_write (ran (pos n)) r.1).0 ≡ none)

  tb_load_random_file-HasBytes :
      (n : ℕ) (w : World)
      → n < 10 ^ 9
      → HasBytes
          (Unopened n w)
          ((files.fopen_read (ran (pos n)) w).0 ≡ none)
          n
          (tb_load_random_file files (pos n) w)
  unfolding tb_load_random_file
  tb_load_random_file-HasBytes n w small =
      let u = (files.fopen_read (ran (pos n)) w).1 in
      let fits : ltb n (10 ^ 9) ≡ true = ground arith in
      rw fits
        (elim (files.fopen_read (ran (pos n)) w).0
          as (λ h.
            HasBytes ((h ≡ none) × ((files.fopen_write (ran (pos n)) u).0 ≡ none)) (h ≡ none) n
              (elim h [
                | none ↦ tb_create_random files (ran (pos n)) (pos n) u
                | some fd ↦ read_random files (pos n) fd (room (pos n)) u
              ])) [
                | none ↦
                    tb_create_random-HasBytes
                      ((none ≡ none) × ((files.fopen_write (ran (pos n)) u).0 ≡ none)) (none ≡ none)
                      n u small (λ e. (refl, e))
                | some fd ↦
                    read_random-HasBytes
                      ((some fd ≡ none) × ((files.fopen_write (ran (pos n)) u).0 ≡ none))
                      (some fd ≡ none) n fd u small (λ e. ground arith)
              ])

  -- Without the name of a file, a size of `n` bytes, less than 10 ^ 9, stays as it is, and the
  -- data is none, and then the file for it could be opened neither for reading nor for writing, or
  -- it has at most `n` bytes: exactly `n` if there was no file for it before. A size of 10 ^ 9 or
  -- more is undefined behaviour: its digits do not fit into the ten bytes that are there for them.
  pub tb_create_test_file-random :
      (n : ℕ) (w : World)
      → (n < 10 ^ 9
          → (data_of : Option (List ℕ)) × (w' : World) × (tb_create_test_file files none (pos n) w
              ≡ ok (data_of, pos n) w')
            × (((data_of ≡ none) × Unopened n w)
                ⊎ ((bytes : List ℕ) × (data_of ≡ some bytes)
                    × (length bytes ≤ n)
                    × ((files.fopen_read (ran (pos n)) w).0 ≡ none → length bytes ≡ n))))
        × (10 ^ 9 ≤ n → tb_create_test_file files none (pos n) w ≡ fault)
  unfolding tb_create_test_file tb_load_random_file
  tb_create_test_file-random n w = (
    (λ small.
        let (data_of, w', run, what) = tb_load_random_file-HasBytes n w small in
        (data_of, w', ap (with_size files (pos n)) run, what)),
    (λ large. let beyond : ltb n (10 ^ 9) ≡ false = ground arith in rw beyond refl),
  )
