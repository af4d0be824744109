-- ===== src/Udt/Server/Laws.antt =====
-- What tb_udt_server of src/tb_udt.c receives from one connection.
use fastuserprotocol.Common.{
  ℕ, zero, suc, ◌+◌, ◌<◌, ◌≡◌, refl, sym, ap, ◌∙◌, inl, inr, true, false, some, arith,
  if◌then◌else◌, Bool-cases,
}
use fastuserprotocol.Common.Int.{
  pos-add, ℤ, pos, minus_one, ◌+ℤ◌, ◌==ℤ◌, +ℤ_assoc, +ℤ-id_right, pos-ne_minus_one,
}
use fastuserprotocol.Protocol.{udt_recv, udt_close}
use fastuserprotocol.Os.{Os, Ends, Ends-mono, ◌>>=◌, ◌>>◌, pure}
use fastuserprotocol.Os.Contract.{ReceivesSome}
use fastuserprotocol.Session.{TbSession}
use fastuserprotocol.Listener.{TbListener, tb_continue, leaves_loop}
use fastuserprotocol.Listener.Net.{State, overwrite, tb_abort_thread}
use fastuserprotocol.Listener.Net.Laws.{IsAborted, read_on}
use fastuserprotocol.Stream.Server.{with_last, count_received}
use fastuserprotocol.Stream.Server.Laws.{with_total}
use fastuserprotocol.Udt.{Udt, is_broken}
use fastuserprotocol.Udt.Server.{receive, leave_or_abort, recv_loop}

-- A listener whose table closes sockets by udt_close, and whose command is to go on.
pub record IsUdtServer (l : TbListener) : Type 0 where
  pub f_close : l.protocol.f_close ≡ some udt_close
  pub command : l.command ≡ tb_continue

module _ {World : Type 0} (os : Os World) (udt : Udt World) (left : ℤ → World → ℕ)
    (law : ReceivesSome os udt_recv left) (quiet : (w : World) → (os.interrupted w).0 ≡ false) where
  -- A receive of at most `size` bytes fails with the error 2001: the connection is broken.
  abbrev pub BreaksAt : ℤ → ℕ → World → Type 0
  BreaksAt fd size v =
      ((os.recv udt_recv fd size v).0 ≡ minus_one)
      × ((udt.udt_getlasterror_code (os.recv udt_recv fd size v).2 ==ℤ pos 2001) ≡ true)

  -- `n` bytes have been counted, once in the session and once in the listener, before the connection
  -- breaks.
  pub record IsReceived (n : ℕ) (c : TbSession) (s : State World) (c' : TbSession)
      (s' : State World) : Type 0 where
    pub session : c'.total_bytes ≡ c.total_bytes +ℤ pos n
    pub listener : s'.listener ≡ with_total s.listener (pos n) c'
    pub sock_d : c'.sock_d ≡ c.sock_d
    pub breaks :
        (v : World) × (n + left c.sock_d v ≡ left c.sock_d s.world)
        × BreaksAt c.sock_d c.data_size v

  abbrev pub Received : TbSession → State World → TbSession → State World → Type 0
  Received c s c' s' = (n : ℕ) × IsReceived n c s c' s'

  abbrev checked : State World → State World
  checked s = record s { world = (os.interrupted s.world).1 }

  -- What a receive makes of the session.
  abbrev got : TbSession → World → TbSession
  got c w =
      let r = os.recv udt_recv c.sock_d c.data_size w in
      record c { last_trans = r.0; contents = overwrite r.1 c.contents }

  abbrev after : TbSession → State World → State World
  after c s = record {
    listener = record s.listener { curr_session = some (got c s.world) };
    world = (os.recv udt_recv c.sock_d c.data_size s.world).2;
  }

  abbrev counted : TbSession → State World → State World
  counted c s = record (after c s) {
    listener = with_total s.listener (got c s.world).last_trans (with_last os (got c s.world));
  }

  no_more :
      (c : TbSession) (s : State World)
      → BreaksAt c.sock_d c.data_size (checked s).world
      → IsReceived 0 c s (got c (checked s).world) (after c (checked s))
  no_more c s b = record {
    session = sym (+ℤ-id_right c.total_bytes);
    listener =
        ap
          (λ n. record s.listener {
            total_tx_rx = n;
            curr_session = some (got c (checked s).world);
          })
          (sym (+ℤ-id_right s.total_tx_rx));
    sock_d = refl;
    breaks = ((checked s).world, omega (arith, law.checking_signals c.sock_d s.world), b);
  }

  -- A receive has failed; the loop or the thread ends.
  failed :
      (c : TbSession) (s : State World)
      → IsUdtServer s.listener
      → (got c (checked s).world).last_trans ≡ minus_one
      → Ends
          (Received c s)
          (IsAborted os)
          (leave_or_abort os udt (got c (checked s).world) (after c (checked s)))
  unfolding leave_or_abort tb_abort_thread
  failed c s t e = elim (Bool-cases (is_broken udt (after c (checked s)).world)) [
    | inl over ↦ rw over (0, no_more c s (e, over))
    | inr bad ↦ rw bad (ground (arith, t.f_close))
  ]

  more_rounds :
      (k m : ℕ) (c d : TbSession) (s u : State World)
      → (got c (checked s).world).last_trans ≡ pos k
      → k + left c.sock_d (after c (checked s)).world ≡ left c.sock_d (checked s).world
      → IsReceived m (with_last os (got c (checked s).world)) (counted c (checked s)) d u
      → IsReceived (k + m) c s d u
  more_rounds k m c d s u e sum r =
      let n = (got c (checked s).world).last_trans in
      let all : n +ℤ pos m ≡ pos (k + m) = ap (λ z. z +ℤ pos m) e ∙ pos-add k m in
      let (v, here, broken) = r.breaks in
      record {
        session = r.session ∙ +ℤ_assoc c.total_bytes n (pos m) ∙ ap (λ z. c.total_bytes +ℤ z) all;
        listener =
            r.listener
            ∙ ap (λ z. record s.listener { total_tx_rx = z; curr_session = some d })
                (+ℤ_assoc s.total_tx_rx n (pos m) ∙ ap (λ z. s.total_tx_rx +ℤ z) all);
        sock_d = r.sock_d;
        breaks = (v, omega (arith, here, sum, law.checking_signals c.sock_d s.world), broken);
      }

  pub recv_loop-IsReceived :
      (fuel : ℕ) (c : TbSession) (s : State World)
      → IsUdtServer s.listener
      → 0 < c.data_size
      → left c.sock_d s.world < fuel
      → Ends (Received c s) (IsAborted os) (recv_loop os udt fuel c s)
  unfolding recv_loop receive
  recv_loop-IsReceived zero c s t room lt = absurd (omega arith)
  recv_loop-IsReceived (suc fuel) c s t room lt =
      let go_on = λ (c' : TbSession).
        if c'.last_trans ==ℤ minus_one
        then leave_or_abort os udt c'
        else count_received os c' >> recv_loop os udt fuel (with_last os c') in
      read_on os (Received c s) s tb_continue
        (λ command. if leaves_loop command then pure c else receive os udt c >>= go_on)
        (quiet s.world) t.command
        (elim (law.answers c.sock_d c.data_size (checked s).world room) [
          | inl e ↦
              let bad : ((got c (checked s).world).last_trans ==ℤ minus_one) ≡ true =
                ap (λ n. n ==ℤ minus_one) e in
              rw bad (failed c s t e)
          | inr (k, e, some_got, sum) ↦
              let good : ((got c (checked s).world).last_trans ==ℤ minus_one) ≡ false =
                ap (λ n. n ==ℤ minus_one) e ∙ pos-ne_minus_one k in
              rw good (
                Ends-mono
                  (Received (with_last os (got c (checked s).world)) (counted c (checked s)))
                  (Received c s) (IsAborted os)
                  (recv_loop os udt fuel (with_last os (got c (checked s).world))
                    (counted c (checked s)))
                  (recv_loop-IsReceived fuel (with_last os (got c (checked s).world))
                    (counted c (checked s)) (record { f_close = t.f_close; command = t.command })
                    room (omega (arith, law.checking_signals c.sock_d s.world)))
                  (λ d u g. (k + g.0, more_rounds k g.0 c d s u e sum g.1)))
        ])
