-- ===== src/Stream/Receiver/Laws.antt =====
-- What a connection of a server receives, tb_stream_m_server_conn of src/tb_stream.c.
use fastuserprotocol.Common.{ℕ, ◌<◌, ◌≡◌, ap, ◌∙◌, ◌⊎◌, inl, inr, some, arith, if◌then◌else◌}
use fastuserprotocol.Common.Int.{ℤ, pos, minus_one, ◌+ℤ◌, ◌-ℤ◌, ◌==ℤ◌, to_u64}
use fastuserprotocol.Protocol.{recv, close}
use fastuserprotocol.Os.{Os, Ends, Ends-mono}
use fastuserprotocol.Os.Contract.{ReceivesBytes}
use fastuserprotocol.Timer.{TbTime}
use fastuserprotocol.Session.{session_disconnected}
use fastuserprotocol.Listener.{tb_exit}
use fastuserprotocol.Stream.Receiver.Returns.{Returns, server_conn-Returns}
use fastuserprotocol.Stream.Receiver.{Door, no_end, server_conn, tb_stream_m_server_conn}

-- The thread returns 0: all bytes are counted, the session is over, one connection less is active,
-- and if none is left the server is told to exit. Or it returns -1: the session is over, but the
-- connection still counts as active, and the server is told nothing.
abbrev pub HasServed : {World : Type 0} → Door World → ℕ → ℤ → Door World → Type 0
HasServed s n rc t =
    (t.session.status ≡ session_disconnected)
    × (((rc ≡ pos 0)
          × (t.session.total_bytes ≡ s.session.total_bytes +ℤ pos n)
          × (t.list.num_active_conn ≡ s.list.num_active_conn -ℤ pos 1)
          × (t.command
              ≡ (if s.list.num_active_conn -ℤ pos 1 ==ℤ pos 0 then tb_exit else s.command)))
        ⊎ ((rc ≡ minus_one)
            × (t.list.num_active_conn ≡ s.list.num_active_conn)
            × (t.command ≡ s.command)))

-- Where a failed receive is never the end, the return value 0 means that all is counted.
Returns-HasServed :
    {World : Type 0} (os : Os World) (left : ℤ → World → ℕ) (law : ReceivesBytes os recv left)
    (s : Door World) (rc : ℤ) (t : Door World)
    → Returns os recv close no_end left law s rc t
    → HasServed s (left s.session.sock_d s.world) rc t
Returns-HasServed os left law s rc t
      (over, (n, v, (here, total), inl (e, inl (z, end), less, cmd))) =
    (
      over,
      inl (
        e,
        total ∙ ap (λ m. s.session.total_bytes +ℤ pos m) (omega (arith, here, end)),
        less,
        cmd,
      ),
    )
Returns-HasServed os left law s rc t (over, (n, v, c, inl (e, inr (bad, never), less, cmd))) =
    absurd (ground arith)
Returns-HasServed os left law s rc t (over, (n, v, c, inr (e, bad, same, cmd))) =
    (over, inr (e, same, cmd))

-- The thread of a connection whose session has its timer and receives at least one byte at a time
-- returns, as `HasServed` says: one more receive than there are bytes is enough.
pub tb_stream_m_server_conn-HasServed :
    {World : Type 0} (os : Os World) (left : ℤ → World → ℕ) (law : ReceivesBytes os recv left)
    (fuel : ℕ) (s : Door World) (k : TbTime)
    → s.session.transfer_t ≡ some k
    → 0 < to_u64 s.session.pack_size
    → left s.session.sock_d s.world < fuel
    → Ends
        (HasServed s (left s.session.sock_d s.world))
        (λ _. ⊥)
        (tb_stream_m_server_conn os fuel s)
unfolding tb_stream_m_server_conn
tb_stream_m_server_conn-HasServed os left law fuel s k at room enough =
    Ends-mono (Returns os recv close no_end left law s)
      (HasServed s (left s.session.sock_d s.world)) (λ _. ⊥)
      (server_conn os recv close no_end fuel s)
      (server_conn-Returns os recv close no_end left law fuel s k at room enough)
      (λ rc t h. Returns-HasServed os left law s rc t h)
