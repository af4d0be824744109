-- ===== src/Udt/Sample.antt =====
-- A system for the tests of the drivers for UDT: a peer that sends, and then breaks the connection.
use Prim.Native.Nat.{min}
use fastuserprotocol.Common.{
  ◌⊎◌, ◌+◌, ◌<◌, ◌≡◌, inl, inr, ℕ, refl, List, [], ◌∷◌, arith, length, take, drop, length-drop,
}
use fastuserprotocol.Common.Int.{ℤ, pos, minus_one}
use fastuserprotocol.Protocol.{udt_recv}
use fastuserprotocol.Os.{Os}
use fastuserprotocol.Os.Contract.{ReceivesBytes, ReceivesSome}
use fastuserprotocol.Udp.Sample.{still}
use fastuserprotocol.Udt.{Udt}

-- The world is what the peer has still to send; when nothing is left, a receive fails.
abbrev hand_over : ℕ → List ℕ → ℤ × List ℕ × List ℕ
hand_over n [] = (minus_one, [], [])
hand_over n (x ∷ xs) = let m = min n (length (x ∷ xs)) in (pos m, take m (x ∷ xs), drop m (x ∷ xs))

abbrev pub breaks : Os (List ℕ)
breaks = record still { recv = λ f fd n w. hand_over n w }

abbrev pub broken : Udt (List ℕ)
broken = record { udt_getlasterror_code = λ w. pos 2001; udt_cleanup = λ w. w }

abbrev pub to_come : ℤ → List ℕ → ℕ
to_come fd w = length w

hand_over_lem :
    (n : ℕ) (w : List ℕ)
    → 0 < n
    → let r = hand_over n w in
      (r.0 ≡ minus_one)
      ⊎ ((k : ℕ) × (r.0 ≡ pos k) × (k + length r.2 ≡ length w) × (k ≡ 0 → length w ≡ 0))
hand_over_lem n [] room = inl refl
hand_over_lem n (x ∷ xs) room = inr (
  min n (length (x ∷ xs)),
  refl,
  omega (arith, length-drop (min n (length (x ∷ xs))) (x ∷ xs)),
  (λ h. omega arith),
)

pub breaks-ReceivesBytes : ReceivesBytes breaks udt_recv to_come
breaks-ReceivesBytes = record {
  answers = λ fd n w room. hand_over_lem n w room;
  checking_signals = λ fd w. refl;
  reading_clock = λ fd w. refl;
}

hand_over_some :
    (n : ℕ) (w : List ℕ)
    → 0 < n
    → let r = hand_over n w in
      (r.0 ≡ minus_one) ⊎ ((k : ℕ) × (r.0 ≡ pos k) × (0 < k) × (k + length r.2 ≡ length w))
hand_over_some n [] room = inl refl
hand_over_some n (x ∷ xs) room = inr (
  min n (length (x ∷ xs)),
  refl,
  omega arith,
  omega (arith, length-drop (min n (length (x ∷ xs))) (x ∷ xs)),
)

pub breaks-ReceivesSome : ReceivesSome breaks udt_recv to_come
breaks-ReceivesSome = record {
  answers = λ fd n w room. hand_over_some n w room;
  checking_signals = λ fd w. refl;
  reading_clock = λ fd w. refl;
}
