-- ===== src/Udt/Event/Tests.antt =====
-- An event of src/tb_udt.c at which two connections wait, of which the second cannot be set up.
use fastuserprotocol.Common.{ℕ, none, List, [], ◌∷◌, length, if◌then◌else◌}
use fastuserprotocol.Common.Int.{ℤ, pos, minus_one, ◌==ℤ◌}
use fastuserprotocol.Os.{Os}
use fastuserprotocol.Listener.{m_server, tb_listening}
use fastuserprotocol.Listener.Sample.{udt_listener}
use fastuserprotocol.Stream.Event.{Hub}
use fastuserprotocol.Udp.Sample.{still}

-- The world is the list of the descriptors of the connections that wait.
abbrev answer : List ℕ → ℤ × List ℕ
answer [] = (minus_one, [])
answer (x ∷ xs) = (pos x, xs)

-- The socket 9 does not take the option.
abbrev picky : Os (List ℕ)
picky = record still {
  accept = λ f fd w. answer w;
  setsockopt = λ fd o v w. (if fd ==ℤ pos 9 then minus_one else pos 0, w);
}

abbrev waits : ℤ → List ℕ → ℕ
waits fd w = length w

abbrev idle : Hub (List ℕ)
idle = record {
  listener = record udt_listener { e_type = m_server; sock_d = pos 3; status = tb_listening };
  store = λ p. none;
  next = 1;
  world = 8 ∷ 9 ∷ [];
}
