-- ===== src/Stream/Server/Tests.antt =====
-- A run of the server of src/tb_stream.c.
use fastuserprotocol.Common.{ℕ, List, [], ◌∷◌}
use fastuserprotocol.Listener.{server}
use fastuserprotocol.Listener.Sample.{tcp_client}
use fastuserprotocol.Listener.Net.{State}

-- Four bytes to come, into a buffer of three.
abbrev waiting : State (List ℕ)
waiting = record {
  listener = record (tcp_client []) { e_type = server };
  world = 1 ∷ 2 ∷ 3 ∷ 4 ∷ [];
}
