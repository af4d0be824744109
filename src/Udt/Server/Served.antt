-- ===== src/Udt/Server/Served.antt =====
-- tb_udt_server of src/tb_udt.c, from the start to its end.
use mathlib.Core.Path.{subst, subst₂}
use fastuserprotocol.Common.{
  none, some, refl, ◌+◌, ℕ, suc, ◌<◌, ◌^◌, ◌≡◌, sym, ap, ◌∙◌, inl, inr, false, arith, if◌then◌else◌,
  Bool-cases,
}
use fastuserprotocol.Common.Int.{◌+ℤ◌, ℤ, pos, minus_one, ◌==ℤ◌, to_u64, to_u64-lt}
use fastuserprotocol.Protocol.{Callee, udt_recv, udt_close, udt_accept, udt_listen}
use fastuserprotocol.Os.{Os, Ends, Ends-bind, Ends-mono, ◌>>=◌, ◌>>◌, pure}
use fastuserprotocol.Os.Contract.{ReceivesSome}
use fastuserprotocol.Timer.{tb_start_time, tb_finish_time}
use fastuserprotocol.Session.{TbSession}
use fastuserprotocol.Listener.{TbListener, tb_continue, tb_exit, tb_disconnected}
use fastuserprotocol.Listener.Net.{State, tb_abort_thread}
use fastuserprotocol.Listener.Net.Laws.{IsAborted, read_on}
use fastuserprotocol.Stream.Server.{close_server}
use fastuserprotocol.Udt.{Udt}
use fastuserprotocol.Udt.Client.{is_over}
use fastuserprotocol.Udt.Server.{
  recv_loop, accept_session, end_session, server_round, server_loop, listen, tb_udt_server,
}
use fastuserprotocol.Udt.Server.Laws.{
  IsUdtServer, BreaksAt, Received, IsReceived, recv_loop-IsReceived,
}

-- A server for UDT with a buffer of `b` bytes and the socket `fd`, that has counted `total` bytes so
-- far and is to end after one connection.
pub record IsReady (b : ℕ) (fd total : ℤ) (l : TbListener) : Type 0 where
  pub udt : IsUdtServer l
  pub bufsize : l.bufsize ≡ pos b
  pub sock_d : l.sock_d ≡ fd
  pub total_tx_rx : l.total_tx_rx ≡ total
  pub s_tx_end : l.s_tx_end ≡ tb_exit

-- The session is over, and `n` more bytes are counted.
record IsOver (f : Callee) (fd total : ℤ) (n : ℕ) (l : TbListener) : Type 0 where
  pub f_close : l.protocol.f_close ≡ some f
  pub sock_d : l.sock_d ≡ fd
  pub total_tx_rx : l.total_tx_rx ≡ total +ℤ pos n
  pub command : l.command ≡ tb_exit
  pub status : l.status ≡ tb_disconnected
  pub curr_session : l.curr_session ≡ none

-- How a server ends that has served one connection, with `n` bytes received from it: it returns what
-- it had counted before and these, and has closed its socket.
pub record IsServed {World : Type 0} (total : ℤ) (n : ℕ) (r : ℤ) (s : State World) : Type 0 where
  pub result : r ≡ total +ℤ pos n
  pub total_tx_rx : s.total_tx_rx ≡ total +ℤ pos n
  pub sock_d : s.sock_d ≡ minus_one
  pub status : s.status ≡ tb_disconnected
  pub curr_session : s.curr_session ≡ none

close_server-Ends :
    {World : Type 0} (os : Os World) (f : Callee) (fd total : ℤ) (n : ℕ) (s : State World)
    → IsOver f fd total n s.listener
    → Ends (IsServed total n) (IsAborted os) (close_server os s)
unfolding close_server
close_server-Ends os f fd total n s o = ground (arith, o)

module _ {World : Type 0} (os : Os World) (udt : Udt World) (left : ℤ → World → ℕ)
    (law : ReceivesSome os udt_recv left) (quiet : (w : World) → (os.interrupted w).0 ≡ false)
    (b : ℕ) (fd total : ℤ) where
  abbrev Ready : State World → Type 0
  Ready s = IsReady b fd total s.listener

  -- The world after the call that listens.
  abbrev Listening : State World → Unit {0} → State World → Type 0
  Listening s _ t = Ready t × (t.world ≡ (os.listen udt_listen s.sock_d 10 s.world).1)

  listen-Ends : (s : State World) → Ready s → Ends (Listening s) (IsAborted os) (listen os udt s)
  unfolding listen tb_abort_thread
  listen-Ends s r = elim (Bool-cases ((os.listen udt_listen s.sock_d 10 s.world).0 ==ℤ minus_one)) [
    | inl bad ↦ rw bad (ground (arith, r.udt.f_close))
    | inr good ↦ rw good (ground (arith, r, r.udt))
  ]

  -- A session for the connection `conn`, of which nothing has been received.
  abbrev Accepted : ℤ × World → TbSession → State World → Type 0
  Accepted conn c s =
      Ready s
      × (c.sock_d ≡ conn.0)
      × (left conn.0 s.world ≡ left conn.0 conn.1)
      × (c.data_size ≡ to_u64 (pos b))

  accept_session-Ends :
      (s : State World)
      → Ready s
      → let conn = os.accept udt_accept s.sock_d s.world in
        Ends (Accepted conn) (IsAborted os) (accept_session os udt s)
  unfolding accept_session tb_start_time tb_abort_thread
  accept_session-Ends s r =
      elim (Bool-cases ((os.accept udt_accept s.sock_d s.world).0 ==ℤ minus_one)) [
        | inl bad ↦ rw bad (ground (arith, r.udt.f_close))
        | inr good ↦ rw good (
          record {
            udt = record { f_close = r.udt.f_close; command = r.udt.command };
            bufsize = r.bufsize;
            sock_d = r.sock_d;
            total_tx_rx = r.total_tx_rx;
            s_tx_end = r.s_tx_end;
          },
          refl,
          law.reading_clock _ _,
          ap to_u64 r.bufsize,
        )
      ]

  -- Of the bytes that the peer had to send when it was accepted, `n` were received before a receive
  -- failed with the error 2001, and those that were left then were not.
  abbrev pub Broke : ℤ × World → ℕ → Type 0
  Broke conn n =
      (v : World) × (n + left conn.0 v ≡ left conn.0 conn.1)
      × BreaksAt os udt left law quiet conn.0 (to_u64 (pos b)) v

  abbrev Over : ℤ × World → Unit {0} → State World → Type 0
  Over conn _ s = (n : ℕ) × IsOver udt_close fd total n s.listener × Broke conn n

  abbrev Got : TbSession → State World → TbSession → State World → Type 0
  Got c s c' s' = Received os udt left law quiet c s c' s'

  was_broken :
      (conn : ℤ × World) (n : ℕ) (c c' : TbSession) (s s' : State World)
      → Accepted conn c s
      → IsReceived os udt left law quiet n c s c' s'
      → Broke conn n
  was_broken conn n c c' s s' (_, same, coming, size) r =
      let (v, here, broken) =
        subst₂
          (λ d z.
            (v : World) × (n + left d v ≡ left d s.world) × BreaksAt os udt left law quiet d z v)
          same size r.breaks in
      (v, here ∙ coming, broken)

  end_session-Ends :
      (conn : ℤ × World) (c c' : TbSession) (s s' : State World)
      → Accepted conn c s
      → Got c s c' s'
      → Ends (Over conn) (IsAborted os) (end_session os udt c' s')
  unfolding end_session tb_finish_time
  end_session-Ends conn c c' s s' a (n, r) = (
    n,
    record {
      f_close = ap (λ l. l.protocol.f_close) r.listener ∙ a.0.udt.f_close;
      sock_d = ap (λ l. l.sock_d) r.listener ∙ a.0.sock_d;
      total_tx_rx = ap (λ l. l.total_tx_rx) r.listener ∙ ap (λ z. z +ℤ pos n) a.0.total_tx_rx;
      command = ap (λ l. l.s_tx_end) r.listener ∙ a.0.s_tx_end;
      status = refl;
      curr_session = refl;
    },
    was_broken conn n c c' s s' a r,
  )

  server_round-Ends :
      (fuel : ℕ) (s : State World)
      → Ready s
      → 0 < b
      → b < 2 ^ 64
      → let conn = os.accept udt_accept s.sock_d s.world in
        left conn.0 conn.1 < fuel → Ends (Over conn) (IsAborted os) (server_round os udt fuel s)
  unfolding server_round
  server_round-Ends fuel s r some_room fits enough =
      let conn = os.accept udt_accept s.sock_d s.world in
      Ends-bind (Accepted conn) (Over conn) (IsAborted os) (accept_session os udt)
        (λ c. recv_loop os udt fuel c >>= end_session os udt) s (accept_session-Ends s r)
        λ c t a.
          Ends-bind (Got c t) (Over conn) (IsAborted os) (recv_loop os udt fuel c)
            (end_session os udt) t
            (recv_loop-IsReceived os udt left law quiet fuel c t a.0.udt
              (subst (λ m. 0 < m) (sym a.3) (to_u64-lt b some_room fits))
              (subst (λ m. m < fuel) (sym (ap (λ d. left d t.world) a.1 ∙ a.2)) enough))
            (λ c' u g. end_session-Ends conn c c' t u a g)

  server_loop-Ends :
      (rounds fuel : ℕ) (s : State World)
      → Ready s
      → 0 < b
      → b < 2 ^ 64
      → let conn = os.accept udt_accept s.sock_d (os.interrupted s.world).1 in
        left conn.0 conn.1 < fuel
        → Ends (Over conn) (IsAborted os) (server_loop os udt (suc (suc rounds)) fuel s)
  unfolding server_loop
  server_loop-Ends rounds fuel s r some_room fits enough =
      let conn = os.accept udt_accept s.sock_d (os.interrupted s.world).1 in
      let checked = record s { world = (os.interrupted s.world).1 } in
      let body = λ (more : ℕ). server_round os udt fuel >> server_loop os udt more fuel in
      read_on os (Over conn) s tb_continue
        (λ command. if is_over command then pure tt else body (suc rounds)) (quiet s.world)
        r.udt.command
        (Ends-bind (Over conn) (Over conn) (IsAborted os) (server_round os udt fuel)
          (λ _. server_loop os udt (suc rounds) fuel) checked
          (server_round-Ends fuel checked r some_room fits enough)
          λ _ t o.
            read_on os (Over conn) t tb_exit
              (λ command. if is_over command then pure tt else body rounds) (quiet t.world)
              o.1.command o)

  -- A server for UDT with a buffer of at least one byte, that is to end after one connection and is
  -- not interrupted by a signal, either serves the first connection or aborts. It has then received
  -- the bytes that came before a receive failed with the error 2001, of those that the peer had to
  -- send, and ends as `IsServed` says of their number. Two rounds of the loop are enough, and for the
  -- connection one receive more than there are bytes.
  pub tb_udt_server-IsServed :
      (rounds fuel : ℕ) (s : State World)
      → IsReady b fd total s.listener
      → 0 < b
      → b < 2 ^ 64
      → let listening = (os.listen udt_listen s.sock_d 10 s.world).1 in
        let conn = os.accept udt_accept fd (os.interrupted listening).1 in
        left conn.0 conn.1 < fuel
        → Ends
            (λ r t. (n : ℕ) × IsServed total n r t × Broke conn n)
            (IsAborted os)
            (tb_udt_server os udt (suc (suc rounds)) fuel s)
  unfolding tb_udt_server
  tb_udt_server-IsServed rounds fuel s r some_room fits enough =
      let listening = (os.listen udt_listen s.sock_d 10 s.world).1 in
      let conn_at = λ (d : ℤ) (w : World). os.accept udt_accept d (os.interrupted w).1 in
      let conn = conn_at fd listening in
      let Done = λ (r : ℤ) (t : State World). (n : ℕ) × IsServed total n r t × Broke conn n in
      Ends-bind (Listening s) Done (IsAborted os) (listen os udt)
        (λ _. server_loop os udt (suc (suc rounds)) fuel >> close_server os) s (listen-Ends s r)
        λ _ t g.
          let same : conn_at t.sock_d t.world ≡ conn =
            ap (λ d. conn_at d t.world) g.0.sock_d ∙ ap (conn_at fd) g.1 in
          Ends-bind (Over conn) Done (IsAborted os) (server_loop os udt (suc (suc rounds)) fuel)
            (λ _. close_server os) t
            (subst
              (λ c. Ends (Over c) (IsAborted os) (server_loop os udt (suc (suc rounds)) fuel t))
              same
              (server_loop-Ends rounds fuel t g.0 some_room fits
                (subst (λ c. left c.0 c.1 < fuel) (sym same) enough)))
            (λ _ u o.
              Ends-mono (IsServed total o.0) Done (IsAborted os) (close_server os u)
                (close_server-Ends os udt_close fd total o.0 u o.1) (λ z v i. (o.0, i, o.2)))
