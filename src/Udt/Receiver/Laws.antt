-- ===== src/Udt/Receiver/Laws.antt =====
-- What a connection of a server receives, tb_udt_m_server_conn of src/tb_udt.c.
use fastuserprotocol.Common.{
  ℕ, ◌+◌, ◌<◌, true, false, ◌≡◌, ◌⊎◌, inl, inr, none, some, if◌then◌else◌, ap,
}
use fastuserprotocol.Common.Int.{ℤ, pos, minus_one, ◌+ℤ◌, ◌-ℤ◌, ◌==ℤ◌, to_u64}
use fastuserprotocol.Common.{Option}
use fastuserprotocol.Protocol.{udt_recv, udt_close}
use fastuserprotocol.Os.{Os, Ends, Ends-bind, pure}
use fastuserprotocol.Os.Contract.{ReceivesBytes}
use fastuserprotocol.Timer.{TbTime}
use fastuserprotocol.Session.{session_disconnected}
use fastuserprotocol.Listener.{tb_exit}
use fastuserprotocol.Stream.Receiver.{Door, server_conn}
use fastuserprotocol.Stream.Receiver.Returns.{Returns, server_conn-Returns}
use fastuserprotocol.Udt.{Udt, is_broken}
use fastuserprotocol.Udt.Receiver.{retval, tb_udt_m_server_conn}

-- The session is over, and the bytes that came before the last receive, in the world `v`, are counted.
-- Either no value is returned, one connection less is active, and if none is left the server is
-- told to exit: the last receive has answered 0, and nothing is left, or -1, with the error 2001. Or
-- the value is -1, the connection still counts as active, and the server is told nothing: the last
-- receive has answered -1, with another error than 2001.
abbrev pub HasServedUdt :
    {World : Type 0}
    → Os World
    → Udt World
    → (ℤ → World → ℕ)
    → Door World
    → Option ℤ
    → Door World
    → Type 0
HasServedUdt {World} os udt left s value t =
    let at = λ (v : World). os.recv udt_recv s.session.sock_d (to_u64 s.session.pack_size) v in
    (t.session.status ≡ session_disconnected)
    × ((n : ℕ) × (v : World) × ((n + left s.session.sock_d v ≡ left s.session.sock_d s.world)
          × (t.session.total_bytes ≡ s.session.total_bytes +ℤ pos n))
        × (((value ≡ none)
              × ((((at v).0 ≡ pos 0) × (left s.session.sock_d v ≡ 0))
                  ⊎ (((at v).0 ≡ minus_one)
                      × ((udt.udt_getlasterror_code (at v).2 ==ℤ pos 2001) ≡ true)))
              × (t.list.num_active_conn ≡ s.list.num_active_conn -ℤ pos 1)
              × (t.command
                  ≡ (if s.list.num_active_conn -ℤ pos 1 ==ℤ pos 0 then tb_exit else s.command)))
            ⊎ ((value ≡ some minus_one)
                × (((at v).0 ≡ minus_one)
                    × ((udt.udt_getlasterror_code (at v).2 ==ℤ pos 2001) ≡ false))
                × (t.list.num_active_conn ≡ s.list.num_active_conn)
                × (t.command ≡ s.command))))

retval-HasServed :
    {World : Type 0} (os : Os World) (udt : Udt World) (left : ℤ → World → ℕ)
    (law : ReceivesBytes os udt_recv left) (s : Door World) (rc : ℤ) (t : Door World)
    → Returns os udt_recv udt_close (is_broken udt) left law s rc t
    → HasServedUdt os udt left s (retval rc) t
retval-HasServed os udt left law s rc t (over, (n, v, c, inl (e, last, less, cmd))) =
    (over, (n, v, c, inl (ap retval e, last, less, cmd)))
retval-HasServed os udt left law s rc t (over, (n, v, c, inr (e, bad, same, cmd))) =
    (over, (n, v, c, inr (ap retval e, bad, same, cmd)))

-- The thread of a connection over UDT whose session has its timer and receives at least one byte at
-- a time returns, as `HasServedUdt` says: a failed receive with the error 2001 ends the connection
-- in order, whatever is still left, and one with another error leaves it active. One more receive
-- than there are bytes is enough.
pub tb_udt_m_server_conn-HasServed :
    {World : Type 0} (os : Os World) (udt : Udt World) (left : ℤ → World → ℕ)
    (law : ReceivesBytes os udt_recv left) (fuel : ℕ) (s : Door World) (k : TbTime)
    → s.session.transfer_t ≡ some k
    → 0 < to_u64 s.session.pack_size
    → left s.session.sock_d s.world < fuel
    → Ends (HasServedUdt os udt left s) (λ _. ⊥) (tb_udt_m_server_conn os udt fuel s)
unfolding tb_udt_m_server_conn
tb_udt_m_server_conn-HasServed os udt left law fuel s k at room enough =
    Ends-bind (Returns os udt_recv udt_close (is_broken udt) left law s)
      (HasServedUdt os udt left s) (λ _. ⊥) (server_conn os udt_recv udt_close (is_broken udt) fuel)
      (λ rc. pure (retval rc)) s
      (server_conn-Returns os udt_recv udt_close (is_broken udt) left law fuel s k at room enough)
      (λ rc t h. retval-HasServed os udt left law s rc t h)
