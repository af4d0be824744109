-- ===== src/Stream/Server/Served.antt =====
-- tb_stream_server of src/tb_stream.c, from the start to its end.
use fastuserprotocol.Common.{ℕ, ◌≡◌, false, none, some}
use fastuserprotocol.Common.Int.{ℤ, pos, ◌+ℤ◌, to_u64}
use fastuserprotocol.Protocol.{recv, listen}
use fastuserprotocol.Os.{Os, Run, ◌>>=◌, ◌>>◌, pure}
use fastuserprotocol.Os.Contract.{ReceivesBytes}
use fastuserprotocol.Session.{TbSession}
use fastuserprotocol.Listener.{TbListener, tb_disconnected, tb_listening}
use fastuserprotocol.Listener.Net.{State, read_command, tb_listen, set_status}
use fastuserprotocol.Stream.Server.{recv_loop, accept_session, close_session}
use fastuserprotocol.Stream.Server.Laws.{IsTcpServer}

-- A TCP server with a buffer of `b` bytes and the socket `fd`, that has counted `total` bytes so far.
pub record IsReady (b : ℕ) (fd total : ℤ) (l : TbListener) : Type 0 where
  pub tcp : IsTcpServer l
  pub f_listen : l.protocol.f_listen ≡ some listen
  pub bufsize : l.bufsize ≡ pos b
  pub sock_d : l.sock_d ≡ fd
  pub total_tx_rx : l.total_tx_rx ≡ total

module _ {World : Type 0} (os : Os World) (left : ℤ → World → ℕ) (law : ReceivesBytes os recv left)
    (quiet : (w : World) → (os.interrupted w).0 ≡ false) (b : ℕ) (fd total : ℤ) where
  abbrev Ready : State World → Type 0
  Ready s = IsReady b fd total s.listener

  -- An accepted session, with `n` bytes to come.
  abbrev Accepted : ℕ → TbSession → State World → Type 0
  Accepted n c s =
      Ready s
      × (left c.sock_d s.world ≡ n)
      × (c.data_size ≡ to_u64 (pos b))
      × (c.total_bytes ≡ pos 0)

  -- The first connection is over, and `n` bytes of it are counted.
  pub record IsOver (n : ℕ) (c : TbSession) (s : State World) : Type 0 where
    pub session : c.total_bytes ≡ pos n
    pub total_tx_rx : s.total_tx_rx ≡ total +ℤ pos n
    pub sock_d : s.sock_d ≡ fd
    pub status : s.status ≡ tb_disconnected
    pub curr_session : s.curr_session ≡ none

  -- What serves one connection, up to where its session has been destroyed.
  abbrev pub one_service : ℕ → State World → Run (State World) TbSession
  one_service fuel =
      accept_session os >>= λ c. recv_loop os fuel c >>= λ d. close_session os d >> pure d

  -- The server up to where the session of its first connection has been destroyed.
  abbrev pub first_service : ℕ → State World → Run (State World) TbSession
  first_service fuel = tb_listen os >>= λ _.
      set_status os tb_listening >> (read_command os >>= λ _. one_service fuel)
