-- ===== src/TestFile/Tests.antt =====
-- Test files of src/tb_common.c, on a system that has one file.
use fastuserprotocol.Common.{
  ℕ, suc, ◌^◌, ◌<◌, ◌≤◌, ◌≡◌, ◌⊎◌, refl, inl, none, some, Option, List, [], ◌∷◌, arith, length,
  take, length-take,
}
use fastuserprotocol.Common.Int.{ℤ, pos}
use fastuserprotocol.Os.{ok, fault}
use fastuserprotocol.TestFile.{Files, FileName, given, ran, tb_create_test_file}
use fastuserprotocol.TestFile.Laws.{
  IsStdio, Unopened, tb_create_test_file-named, tb_create_test_file-random,
}

abbrev five : List ℕ
five = 1 ∷ 2 ∷ 3 ∷ 4 ∷ 5 ∷ []

abbrev only_given : FileName → Option ℕ
only_given (given name) = some 1
only_given (ran size) = none

-- Any name is that of a file of five bytes, and there are no random files yet; the world counts the
-- random numbers.
abbrev disk : Files ℕ
disk = record {
  fopen_read = λ path w. (only_given path, w);
  fopen_write = λ path w. (some 2, w);
  fseek_end = λ fd w. (pos 0, w);
  fseek_start = λ fd w. (pos 0, w);
  fread = λ fd n w. (take n five, w);
  fwrite = λ fd bytes w. (length bytes, w);
  rand = λ w. (w, suc w);
}

disk-IsStdio : IsStdio disk
disk-IsStdio = record {
  seeks = λ fd w. inl refl;
  reads = λ fd n w. omega (arith, length-take n five);
  writes = λ fd xs w. omega arith;
}

tb_create_test_file-named_example :
    (data_of : Option (List ℕ)) × (size' : ℤ) × (w' : ℕ) × (tb_create_test_file disk
        (some "five.bin")
        (pos 0)
        7
      ≡ ok (data_of, size') w')
    × ((data_of ≡ none) ⊎ ((data_of ≡ some []) × (size' ≡ pos 0)))
tb_create_test_file-named_example = tb_create_test_file-named disk disk-IsStdio "five.bin" (pos 0) 7

tb_create_test_file-random_example :
    (3 < 10 ^ 9
      → (data_of : Option (List ℕ)) × (w' : ℕ) × (tb_create_test_file disk none (pos 3) 7
          ≡ ok (data_of, pos 3) w')
        × (((data_of ≡ none) × Unopened disk disk-IsStdio 3 7)
            ⊎ ((bytes : List ℕ) × (data_of ≡ some bytes)
                × (length bytes ≤ 3)
                × ((only_given (ran (pos 3))) ≡ none → length bytes ≡ 3))))
    × (10 ^ 9 ≤ 3 → tb_create_test_file disk none (pos 3) 7 ≡ fault)
tb_create_test_file-random_example = tb_create_test_file-random disk disk-IsStdio 3 7
