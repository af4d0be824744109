-- ===== src/Stream/Event/Tests.antt =====
-- An event of src/tb_stream.c at which two connections wait.
use fastuserprotocol.Common.{
  ◌⊎◌, ℕ, suc, ◌≡◌, refl, inl, inr, true, false, none, List, [], ◌∷◌, arith, length,
}
use fastuserprotocol.Common.Int.{ℤ, pos, minus_one, ◌==ℤ◌, pos-ne_minus_one}
use fastuserprotocol.Protocol.{accept}
use fastuserprotocol.Os.{Os, ok}
use fastuserprotocol.Os.Sample.{two_at_once}
use fastuserprotocol.Os.Contract.{AcceptsPending}
use fastuserprotocol.Stats.{Ptr}
use fastuserprotocol.Listener.{m_server, tb_listening}
use fastuserprotocol.Listener.Sample.{tcp_client}
use fastuserprotocol.Stream.Event.{Hub, tb_stream_event}
use fastuserprotocol.Stream.Event.Accepted.{IsAccepted, tb_stream_event-IsAccepted}

-- The world is the list of the descriptors of the connections that wait.
abbrev answer : List ℕ → ℤ × List ℕ
answer [] = (minus_one, [])
answer (x ∷ xs) = (pos x, xs)

abbrev waiting : Os (List ℕ)
waiting = record two_at_once { accept = λ f fd w. answer w }

abbrev waits : ℤ → List ℕ → ℕ
waits fd w = length w

answer_lem :
    (w : List ℕ)
    → (((answer w).0 ==ℤ minus_one) ≡ true) × (length (answer w).1 ≡ length w)
      ⊎ (((answer w).0 ==ℤ minus_one) ≡ false) × (suc (length (answer w).1) ≡ length w)
answer_lem [] = inl (refl, refl)
answer_lem (x ∷ xs) = inr (pos-ne_minus_one x, refl)

waiting-AcceptsPending : AcceptsPending waiting accept waits
waiting-AcceptsPending = record {
  answers = λ fd w. answer_lem w;
  setting = λ fd d o v w. refl;
  getting = λ fd d o w. refl;
  reading_clock = λ fd w. refl;
}

-- A server whose list is empty, at which two connections wait.
abbrev idle : Hub (List ℕ)
idle = record {
  listener = record (tcp_client []) { e_type = m_server; status = tb_listening };
  store = λ p. none;
  next = 1;
  world = 8 ∷ 9 ∷ [];
}

tb_stream_event-IsAccepted_example :
    (ys : List Ptr) × (t : Hub (List ℕ)) × (tb_stream_event waiting 3 (pos 3) idle ≡ ok (pos 0) t)
    × IsAccepted waiting accept waits waiting-AcceptsPending idle [] ys t
tb_stream_event-IsAccepted_example =
    tb_stream_event-IsAccepted waiting waits waiting-AcceptsPending 3 idle []
      (record {
        list = record { chain = refl; distinct = tt; last = refl; count = refl };
        ids = tt;
        unused = λ p le. refl;
        not_null = omega arith;
      })
      (omega arith)
