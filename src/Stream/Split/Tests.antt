-- ===== src/Stream/Split/Tests.antt =====
-- How tb_stream_m_client of src/tb_stream.c splits six bytes.
use fastuserprotocol.Common.{ℕ, ◌-◌, ◌%◌, ◌≡◌, List, [], ◌∷◌, ◌++◌, some, length, take, arith}
use fastuserprotocol.Common.Int.{pos}
use fastuserprotocol.Stream.Split.{session_bytes, session_size, session_bytes-split}

abbrev six : List ℕ
six = 1 ∷ 2 ∷ 3 ∷ 4 ∷ 5 ∷ 6 ∷ []

session_bytes-split_example :
    (a b c d : List ℕ) × (session_bytes six (pos 6) 0 ≡ some a)
    × (session_bytes six (pos 6) 1 ≡ some b)
    × (session_bytes six (pos 6) 2 ≡ some c)
    × (session_bytes six (pos 6) 3 ≡ some d)
    × (a ++ (b ++ (c ++ d)) ≡ take (6 - 6 % 4) six)
    × (length a ≡ session_size (pos 6))
    × (length b ≡ session_size (pos 6))
    × (length c ≡ session_size (pos 6))
    × (length d ≡ session_size (pos 6))
session_bytes-split_example = session_bytes-split six (omega arith)
