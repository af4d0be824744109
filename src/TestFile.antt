-- ===== src/TestFile.antt =====
-- The test files of src/tb_common.c: the data of a client is read from a file, or made at random.
pub mod Laws
mod Tests
use Prim.Native.String.{String}
use fastuserprotocol.Common.{
  ℕ, zero, suc, ◌%◌, ◌^◌, Bool, true, false, Option, none, some, List, [], ◌∷◌, ◌==◌, length, ltb,
  if◌then◌else◌,
}
use fastuserprotocol.Common.Int.{ℤ, pos, negsuc, minus_one, ◌==ℤ◌, to_u64}
use fastuserprotocol.Os.{Run, ok, fault}

-- The file that a user names, and `<size>.ran`, whose name has the size in decimal.
pub data FileName : Type 0 where
  given : String → FileName
  ran : ℤ → FileName

-- The calls of stdio and rand; an answer of fopen that is no null pointer is a number.
pub record Files (World : Type 0) : Type 0 where
  pub fopen_read : FileName → World → Option ℕ × World
  pub fopen_write : FileName → World → Option ℕ × World
  -- fseek to the end or to the start, and its answer.
  pub fseek_end : ℕ → World → ℤ × World
  pub fseek_start : ℕ → World → ℤ × World
  -- At most so many bytes, which are those that it has read.
  pub fread : ℕ → ℕ → World → List ℕ × World
  -- How many of the bytes it has written.
  pub fwrite : ℕ → List ℕ → World → ℕ × World
  pub rand : World → ℕ × World

-- num_str[10] has room for the decimal digits of the size, its sign and the byte that ends them.
abbrev pub name_fits : ℤ → Bool
name_fits (pos n) = ltb n (10 ^ 9)
name_fits (negsuc n) = ltb (suc n) (10 ^ 8)

-- What malloc takes for its size: a negative int is more than there is.
abbrev pub room : ℤ → Option ℕ
room (pos n) = some n
room (negsuc n) = none

-- EOF, when it is compared with a size_t.
abbrev pub is_eof : ℕ → Bool
is_eof n = n == to_u64 minus_one

module _ {World : Type 0} (files : Files World) where
  -- r_data[x] = rand(), for so many places.
  unfoldable pub random_bytes : ℕ → World → List ℕ × World
  random_bytes zero w = ([], w)
  random_bytes (suc n) w =
      let r = files.rand w in let rest = random_bytes n r.1 in (r.0 % 256 ∷ rest.0, rest.1)

  unfoldable pub write_random : ℕ → Option ℕ → World → Run World (Option (List ℕ))
  unfolding random_bytes
  write_random fd none w = ok none w
  write_random fd (some n) w =
      let r = random_bytes n w in
      let put = files.fwrite fd r.0 r.1 in
      if is_eof put.0 then ok none put.1 else ok (some r.0) put.1

  unfoldable pub tb_create_random : FileName → ℤ → World → Run World (Option (List ℕ))
  unfolding write_random
  tb_create_random path size w = elim (files.fopen_write path w).0 [
    | none ↦ ok none (files.fopen_write path w).1
    | some fd ↦ write_random fd (room size) (files.fopen_write path w).1
  ]

  -- A read into a null pointer is a fault; if it fails, a random file is made.
  unfoldable pub read_random : ℤ → ℕ → Option ℕ → World → Run World (Option (List ℕ))
  unfolding tb_create_random
  read_random size fd none w = fault
  read_random size fd (some n) w =
      let r = files.fread fd n w in
      if is_eof (length r.0) then tb_create_random (ran size) size r.1 else ok (some r.0) r.1

  unfoldable pub tb_load_random_file : ℤ → World → Run World (Option (List ℕ))
  unfolding read_random tb_create_random
  tb_load_random_file size w =
      if name_fits size
      then elim (files.fopen_read (ran size) w).0 [
        | none ↦ tb_create_random (ran size) size (files.fopen_read (ran size) w).1
        | some fd ↦ read_random size fd (room size) (files.fopen_read (ran size) w).1
      ]
      else fault

  -- The data and what is then the size: fseek answers 0, and the size is set to its answer.
  unfoldable pub load_sized : ℕ → ℤ → Option ℕ → World → Run World (Option (List ℕ) × ℤ)
  load_sized fd size none w = fault
  load_sized fd size (some n) w =
      let r = files.fread fd n (files.fseek_start fd w).1 in
      ok (if is_eof (length r.0) then none else some r.0, size) r.1

  unfoldable pub tb_load_test_file : String → ℤ → World → Run World (Option (List ℕ) × ℤ)
  unfolding load_sized
  tb_load_test_file file_name file_size w = elim (files.fopen_read (given file_name) w).0 [
    | none ↦ ok (none, file_size) (files.fopen_read (given file_name) w).1
    | some fd ↦
        let r = files.fseek_end fd (files.fopen_read (given file_name) w).1 in
        if r.0 ==ℤ minus_one then ok (none, r.0) r.1 else load_sized fd r.0 (room r.0) r.1
  ]

  abbrev pub with_size : ℤ → Run World (Option (List ℕ)) → Run World (Option (List ℕ) × ℤ)
  with_size size (ok data_of w) = ok (data_of, size) w
  with_size size _ = fault

  -- The pointer to the size is never null, so that the last branch is not reached.
  unfoldable pub tb_create_test_file : Option String → ℤ → World → Run World (Option (List ℕ) × ℤ)
  unfolding tb_load_test_file tb_load_random_file
  tb_create_test_file (some file_name) file_size w = tb_load_test_file file_name file_size w
  tb_create_test_file none file_size w = with_size file_size (tb_load_random_file file_size w)
