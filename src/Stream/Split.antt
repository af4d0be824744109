-- ===== src/Stream/Split.antt =====
-- How tb_stream_m_client of src/tb_stream.c splits its data between its connections.
mod Tests
use mathlib.Core.Path.{subst}
use fastuserprotocol.Common.{
  ℕ, ◌+◌, ◌-◌, ◌*◌, ◌/◌, ◌%◌, ◌^◌, ◌<◌, ◌≤◌, ◌≡◌, refl, sym, ap, ◌∙◌, Option, none, some, List,
  ◌++◌, arith, length, take, drop, length-drop, length-take, take-append-take-drop, leb,
  if◌then◌else◌, Bool, true, false,
}
use mathlib.Core.List.{append_assoc}
use fastuserprotocol.Common.Int.{ℤ, pos, ◌*ℤ◌, div_int, to_u64, to_u64-id}
use fastuserprotocol.Listener.Net.{offset, bytes_of}
use fastuserprotocol.Stream.Connection.{slice_from}

abbrev pub num_conn : ℕ
num_conn = 4

-- listener->file_size / num_conn.
abbrev pub share : ℤ → ℤ
share file_size = div_int file_size (pos num_conn)

-- The bytes of the session number `x`: as many as its share, from x shares on.
unfoldable pub session_bytes : List ℕ → ℤ → ℕ → Option (List ℕ)
session_bytes bytes file_size x =
    slice_from (offset bytes (share file_size *ℤ pos x)) (share file_size)

-- session->data_size.
abbrev pub session_size : ℤ → ℕ
session_size file_size = to_u64 (share file_size)

pos-mul : (a b : ℕ) → pos a *ℤ pos b ≡ pos (a * b)
unfolding ◌*ℤ◌
pos-mul a b = ground arith

slice_there :
    (bytes : List ℕ) (k q : ℕ)
    → k + q ≤ length bytes
    → slice_from (offset bytes (pos k)) (pos q) ≡ some (take q (drop k bytes))
slice_there bytes k q le = ground (arith, length-drop k bytes)

session_bytes_lem :
    (bytes : List ℕ) (q x k : ℕ)
    → q ≡ length bytes / 4
    → k ≡ q * x
    → k + q ≤ length bytes
    → session_bytes bytes (pos (length bytes)) x ≡ some (take q (drop k bytes))
unfolding session_bytes
session_bytes_lem bytes q x k eq ek le =
    ap (λ z. slice_from (offset bytes z) (share (pos (length bytes))))
      (pos-mul (length bytes / 4) x ∙ ap pos (ap (λ i. i * x) (sym eq) ∙ sym ek))
    ∙ ap (λ z. slice_from (offset bytes (pos k)) (pos z)) (sym eq)
    ∙ slice_there bytes k q le

-- The next part is joined to the parts before it.
join_part :
    (xs rest : List ℕ) (k q : ℕ)
    → take k xs ++ (take q (drop k xs) ++ rest) ≡ take (k + q) xs ++ rest
join_part xs rest k q =
    sym (append_assoc (take k xs) (take q (drop k xs)) rest)
    ∙ ap (λ ys. ys ++ rest) (take-append-take-drop k q (k + q) xs refl)

parts-append :
    (xs : List ℕ) (q m : ℕ)
    → m ≡ q + q + q + q
    → take q xs
        ++ (take q (drop q xs) ++ (take q (drop (q + q) xs) ++ take q (drop (q + q + q) xs)))
      ≡ take m xs
parts-append xs q m e =
    let last = take q (drop (q + q + q) xs) in
    join_part xs (take q (drop (q + q) xs) ++ last) q q
    ∙ join_part xs last (q + q) q
    ∙ take-append-take-drop (q + q + q) q m xs e

-- When the data has less than 2 ^ 31 bytes, and its length is the size of the file, the four
-- sessions get parts of it that follow each other, each as long as the size of its session. Together
-- they are the data without its last bytes, as many as its length leaves when it is divided by 4.
pub session_bytes-split :
    (bytes : List ℕ)
    → length bytes < 2 ^ 31
    → let n = length bytes in
      (a b c d : List ℕ) × (session_bytes bytes (pos n) 0 ≡ some a)
      × (session_bytes bytes (pos n) 1 ≡ some b)
      × (session_bytes bytes (pos n) 2 ≡ some c)
      × (session_bytes bytes (pos n) 3 ≡ some d)
      × (a ++ (b ++ (c ++ d)) ≡ take (n - n % 4) bytes)
      × (length a ≡ session_size (pos n))
      × (length b ≡ session_size (pos n))
      × (length c ≡ session_size (pos n))
      × (length d ≡ session_size (pos n))
session_bytes-split bytes small =
    let n = length bytes in
    let q = n / 4 in
    let size : session_size (pos n) ≡ q = to_u64-id q (omega arith) in
    (
      take q (drop 0 bytes),
      take q (drop q bytes),
      take q (drop (q + q) bytes),
      take q (drop (q + q + q) bytes),
      session_bytes_lem bytes q 0 0 refl (omega arith) (omega arith),
      session_bytes_lem bytes q 1 q refl (omega arith) (omega arith),
      session_bytes_lem bytes q 2 (q + q) refl (omega arith) (omega arith),
      session_bytes_lem bytes q 3 (q + q + q) refl (omega arith) (omega arith),
      parts-append bytes q (n - n % 4) (omega arith),
      omega (arith, size, length-take q (drop 0 bytes), length-drop 0 bytes),
      omega (arith, size, length-take q (drop q bytes), length-drop q bytes),
      omega (arith, size, length-take q (drop (q + q) bytes), length-drop (q + q) bytes),
      omega (arith, size, length-take q (drop (q + q + q) bytes), length-drop (q + q + q) bytes),
    )
