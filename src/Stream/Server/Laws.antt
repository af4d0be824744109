-- ===== src/Stream/Server/Laws.antt =====
-- What tb_stream_server of src/tb_stream.c receives.
use mathlib.Core.Path.{subst}
use fastuserprotocol.Common.{
  ℕ, zero, suc, ◌+◌, ◌<◌, ◌≡◌, refl, sym, ap, ◌∙◌, inl, inr, true, false, some, arith,
  if◌then◌else◌, Bool-cases,
}
use fastuserprotocol.Common.Int.{
  pos-add, ℤ, pos, minus_one, ◌+ℤ◌, ◌==ℤ◌, +ℤ_assoc, pos-ne_minus_one,
}
use fastuserprotocol.Protocol.{recv, close, tb_socket_error, tb_error_value}
use fastuserprotocol.Os.{Os, Ends, Ends-bind, Ends-mono, ◌>>=◌, ◌>>◌, pure}
use fastuserprotocol.Os.Contract.{ReceivesBytes}
use fastuserprotocol.Session.{TbSession}
use fastuserprotocol.Listener.{TbListener, tb_continue, leaves_loop}
use fastuserprotocol.Listener.Net.{
  State, f_abort, tb_abort_thread, judge_error, recv_by, tb_recv_data, read_command,
}
use fastuserprotocol.Listener.Net.Laws.{IsAborted, read_on}
use fastuserprotocol.Stream.Server.{with_last, count_received, recv_loop}

-- A listener that uses the table for TCP to receive.
pub record IsTcpServer (l : TbListener) : Type 0 where
  pub f_recv : l.protocol.f_recv ≡ some recv
  pub f_close : l.protocol.f_close ≡ some close
  pub f_error : l.protocol.f_error ≡ some tb_socket_error
  pub callbacks : l.callbacks_set ≡ true
  pub command : l.command ≡ tb_continue

-- It depends on the table, the callbacks and the command alone.
pub same_calls :
    {l m : TbListener}
    → m.protocol ≡ l.protocol
    → m.callbacks_set ≡ l.callbacks_set
    → m.command ≡ l.command
    → IsTcpServer l
    → IsTcpServer m
same_calls p c k t = record {
  f_recv = ap (λ q. q.f_recv) p ∙ t.f_recv;
  f_close = ap (λ q. q.f_close) p ∙ t.f_close;
  f_error = ap (λ q. q.f_error) p ∙ t.f_error;
  callbacks = c ∙ t.callbacks;
  command = k ∙ t.command;
}

-- A listener that has counted more bytes, and points to a session.
abbrev pub with_total : TbListener → ℤ → TbSession → TbListener
with_total l n c = record l { total_tx_rx = l.total_tx_rx +ℤ n; curr_session = some c }

module _ {World : Type 0} (os : Os World) (left : ℤ → World → ℕ)
    (law : ReceivesBytes os recv left) where
  -- A receive that comes back has got some bytes, or the end of the stream, and left the listener
  -- alone.
  abbrev Received : TbSession → State World → TbSession → State World → Type 0
  Received c s c' s' =
      (k : ℕ) × (c'.last_trans ≡ pos k)
      × (k + left c.sock_d s'.world ≡ left c.sock_d s.world)
      × (k ≡ 0 → left c.sock_d s.world ≡ 0)
      × (s'.listener ≡ s.listener)
      × (c'.sock_d ≡ c.sock_d)
      × (c'.total_bytes ≡ c.total_bytes)
      × (c'.data_size ≡ c.data_size)

  judge-aborts :
      (P : TbSession → State World → Type 0) (c : TbSession) (s : State World)
      → IsTcpServer s.listener
      → Ends P (IsAborted os) ((judge_error os minus_one >> pure c) s)
  unfolding judge_error tb_error_value f_abort tb_abort_thread
  judge-aborts P c s t = ground (arith, t.f_close, t.callbacks, t.f_error)

  recv_by-Ends :
      (c : TbSession) (s : State World)
      → IsTcpServer s.listener
      → 0 < c.data_size
      → Ends (Received c s) (IsAborted os) (recv_by os (some recv) c s)
  unfolding recv_by
  recv_by-Ends c s t room = elim (law.answers c.sock_d c.data_size s.world room) [
    | inl e ↦ rw e (judge-aborts (Received c s) _ _ t)
    | inr (k, e, sum, end) ↦ rw (e, pos-ne_minus_one k) (k, refl, sum, end, refl, refl, refl, refl)
  ]

  tb_recv_data-Ends :
      (c : TbSession) (s : State World)
      → IsTcpServer s.listener
      → 0 < c.data_size
      → Ends (Received c s) (IsAborted os) (tb_recv_data os c s)
  unfolding tb_recv_data
  tb_recv_data-Ends c s t room =
      subst (λ f. Ends (Received c s) (IsAborted os) (recv_by os f c s)) (sym t.f_recv)
        (recv_by-Ends c s t room)

  -- All that was left at the start has been counted, once in the session and once in the listener.
  pub record IsReceived (c : TbSession) (s : State World) (c' : TbSession) (s' : State World)
      : Type 0 where
    pub session : c'.total_bytes ≡ c.total_bytes +ℤ pos (left c.sock_d s.world)
    pub listener : s'.listener ≡ with_total s.listener (pos (left c.sock_d s.world)) c'
    pub sock_d : c'.sock_d ≡ c.sock_d

  -- A result counted, in the session and the listener.
  abbrev counted : TbSession → State World → State World
  counted c s = record s { listener = with_total s.listener c.last_trans (with_last os c) }

  -- The same, in a world in which the signals have been looked for.
  abbrev checked : TbSession → State World → State World
  checked c s = record (counted c s) { world = (os.interrupted s.world).1 }

  is_zero : (n : ℤ) (k : ℕ) → n ≡ pos k → (n ==ℤ pos 0) ≡ true → k ≡ 0
  is_zero n k e h = ground (arith, e)

  not_zero : (n : ℤ) (k : ℕ) → n ≡ pos k → (n ==ℤ pos 0) ≡ false → 0 < k
  not_zero n k e h = ground (arith, e)

  still_left :
      (c c' : TbSession) (s : State World)
      → c'.sock_d ≡ c.sock_d
      → left c'.sock_d (os.interrupted s.world).1 ≡ left c.sock_d s.world
  still_left c c' s fd = law.checking_signals c'.sock_d s.world ∙ ap (λ f. left f s.world) fd

  counted-IsTcpServer :
      (l l' : TbListener) (n : ℤ) (c : TbSession)
      → l' ≡ l
      → IsTcpServer l
      → IsTcpServer (with_total l' n c)
  counted-IsTcpServer l l' n c same t =
      subst (λ m. IsTcpServer (with_total m n c)) (sym same) (same_calls refl refl refl t)

  fewer :
      (c c' : TbSession) (s s' : State World) (fuel : ℕ)
      → Received c s c' s'
      → (c'.last_trans ==ℤ pos 0) ≡ false
      → left c.sock_d s.world < suc fuel
      → left c'.sock_d (os.interrupted s'.world).1 < fuel
  fewer c c' s s' fuel (k, e, sum, _, _, fd, _, _) more lt =
      let some_got : 0 < k = not_zero c'.last_trans k e more in omega (arith, still_left c c' s' fd)

  first_round :
      (c c' : TbSession) (s s' : State World)
      → Received c s c' s'
      → (c'.last_trans ==ℤ pos 0) ≡ true
      → IsReceived c s (with_last os c') (counted c' s')
  first_round c c' s s' (k, e, sum, end, same, fd, bytes, size) last =
      let zero_got : k ≡ 0 = is_zero c'.last_trans k e last in
      let none_left : pos (left c.sock_d s.world) ≡ c'.last_trans =
        ap pos (end zero_got ∙ sym zero_got) ∙ sym e in
      record {
        session = ap (λ b. b +ℤ c'.last_trans) bytes ∙ ap (λ n. c.total_bytes +ℤ n) (sym none_left);
        listener =
            ap (λ l. with_total l c'.last_trans (with_last os c')) same
            ∙ ap (λ n. with_total s.listener n (with_last os c')) (sym none_left);
        sock_d = fd;
      }

  more_rounds :
      (c c' d : TbSession) (s s' u : State World)
      → Received c s c' s'
      → IsReceived (with_last os c') (checked c' s') d u
      → IsReceived c s d u
  more_rounds c c' d s s' u (k, e, sum, end, same, fd, bytes, size) r =
      let rest = pos (left c'.sock_d (os.interrupted s'.world).1) in
      let all : c'.last_trans +ℤ pos (left c'.sock_d (os.interrupted s'.world).1)
          ≡ pos (left c.sock_d s.world) =
        ap (λ n. n +ℤ pos (left c'.sock_d (os.interrupted s'.world).1)) e
        ∙ pos-add k (left c'.sock_d (os.interrupted s'.world).1)
        ∙ ap (λ n. pos (k + n)) (still_left c c' s' fd)
        ∙ ap pos sum in
      record {
        session =
            r.session
            ∙ +ℤ_assoc c'.total_bytes c'.last_trans rest
            ∙ ap (λ b. b +ℤ (c'.last_trans +ℤ rest)) bytes
            ∙ ap (λ n. c.total_bytes +ℤ n) all;
        listener =
            r.listener
            ∙ ap (λ n. record s'.listener { total_tx_rx = n; curr_session = some d })
                (+ℤ_assoc s'.total_tx_rx c'.last_trans rest)
            ∙ ap (λ l. with_total l (c'.last_trans +ℤ rest) d) same
            ∙ ap (λ n. with_total s.listener n d) all;
        sock_d = r.sock_d ∙ fd;
      }

  pub recv_loop-IsReceived :
      (fuel : ℕ) (c : TbSession) (s : State World)
      → ((w : World) → (os.interrupted w).0 ≡ false)
      → IsTcpServer s.listener
      → 0 < c.data_size
      → left c.sock_d s.world < fuel
      → Ends (IsReceived c s) (IsAborted os) (recv_loop os fuel c s)
  unfolding recv_loop
  recv_loop-IsReceived zero c s quiet t room lt = absurd (omega arith)
  recv_loop-IsReceived (suc fuel) c s quiet t room lt =
      Ends-bind (Received c s) (IsReceived c s) (IsAborted os) (tb_recv_data os c)
        (λ c'.
          count_received os c'
          >> (if c'.last_trans ==ℤ pos 0
              then pure (with_last os c')
              else read_command os >>= λ command.
                  if leaves_loop command
                  then pure (with_last os c')
                  else recv_loop os fuel (with_last os c')))
        s (tb_recv_data-Ends c s t room)
        λ c' s' r. elim (Bool-cases (c'.last_trans ==ℤ pos 0)) [
          | inl last ↦ rw last (first_round c c' s s' r last)
          | inr more ↦ rw more (
              read_on os (IsReceived c s) (counted c' s') tb_continue
                (λ command.
                  if leaves_loop command
                  then pure (with_last os c')
                  else recv_loop os fuel (with_last os c'))
                (quiet s'.world) (ap (λ l. l.command) r.4 ∙ t.command)
                (Ends-mono (IsReceived (with_last os c') (checked c' s')) (IsReceived c s)
                  (IsAborted os) (recv_loop os fuel (with_last os c') (checked c' s'))
                  (recv_loop-IsReceived fuel (with_last os c') (checked c' s') quiet
                    (counted-IsTcpServer s.listener s'.listener c'.last_trans (with_last os c') r.4
                      t)
                    (subst (λ n. 0 < n) (sym r.7) room) (fewer c c' s s' fuel r more lt))
                  (λ d u g. more_rounds c c' d s s' u r g)))
        ]
