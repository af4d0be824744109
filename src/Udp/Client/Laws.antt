-- ===== src/Udp/Client/Laws.antt =====
-- When tb_udp_client of src/tb_udp.c does not come to its end.
use mathlib.Core.Path.{subst}
use fastuserprotocol.Common.{
  ℕ, zero, suc, ◌<◌, ◌≤◌, ◌≡◌, ◌⊎◌, refl, sym, ap, ◌∙◌, inl, inr, true, false, none, some, Option,
  arith,
}
use fastuserprotocol.Common.Int.{ℤ, pos, ◌-ℤ◌, ltb_ℤ}
use fastuserprotocol.Protocol.{connect, close}
use fastuserprotocol.Os.{
  Os, AddrInfo, Run, ok, exited, halted, fault, out_of_fuel, Ends, Ends-widen, deref, so_sndbuf,
  ◌>>=◌, ◌>>◌, get,
}
use fastuserprotocol.Listener.{TbListener, tb_connected, tb_aborting}
use fastuserprotocol.Listener.Net.{
  State, call, set_status, finish_connect, finish_transfer, start_transfer, tb_connect,
  tb_abort_thread,
}
use fastuserprotocol.Listener.Net.Laws.{Connects, IsConnected, IsRefused, tb_connect-or_IsRefused}
use fastuserprotocol.Timer.{tb_start_time, tb_finish_time}
use fastuserprotocol.Epoll.{TbEpoll}
use fastuserprotocol.Stream.Client.{close_client}
use fastuserprotocol.Udp.Client.{
  Outgoing, packet_size, send_if_room, transfer_loop, transfer, ack_loop, tb_udp_client,
}

-- A run that does not return: it needs still more rounds, or its thread has ended with `Q`.
abbrev pub Unfinished : {S A : Type 0} → (S → Type 0) → Run S A → Type 0
Unfinished Q (exited s) = Q s
Unfinished Q out_of_fuel = Unit {0}
Unfinished Q _ = ⊥

after-Unfinished :
    {S A B : Type 0} (Q : S → Type 0) (m : S → Run S A) (f : A → S → Run S B) (s : S)
    → Unfinished Q (m s)
    → Unfinished Q ((m >>= f) s)
after-Unfinished {S} {A} Q m f s h = go (m s) h
  where
    go : (r : Run S A) → Unfinished Q r → Unfinished Q (◌>>=◌ (λ (_ : S). r) f s)
    go (ok a t) q = absurd q
    go (exited t) q = q
    go (halted t) q = absurd q
    go fault q = absurd q
    go out_of_fuel q = q

before-Unfinished :
    {S A B : Type 0} (P : A → S → Type 0) (Q : S → Type 0) (m : S → Run S A) (f : A → S → Run S B)
    (s : S)
    → Ends P Q (m s)
    → ((a : A) (t : S) → P a t → Unfinished Q (f a t))
    → Unfinished Q ((m >>= f) s)
before-Unfinished {S} {A} P Q m f s h next = go (m s) h
  where
    go : (r : Run S A) → Ends P Q r → Unfinished Q (◌>>=◌ (λ (_ : S). r) f s)
    go (ok a t) p = next a t p
    go (exited t) q = q
    go (halted t) q = absurd q
    go fault q = absurd q
    go out_of_fuel q = absurd q

-- A client for UDP with `n` bytes left of its file, and packets of `b` bytes.
pub record IsWaiting (n b : ℕ) (l : TbListener) : Type 0 where
  pub calls : Connects connect close l
  pub file_size : l.file_size ≡ pos n
  pub total : l.total_tx_rx ≡ pos 0
  pub bufsize : l.bufsize ≡ pos b

module _ {World : Type 0} (os : Os World) (out : Outgoing World) (n b v : ℕ)
    (queued : (fd : ℤ) (w : World)
      → ((out.outq fd w).0 ≡ none) ⊎ ((k : ℕ) × ((out.outq fd w).0 ≡ some (pos k))))
    (sndbuf : (fd : ℤ) (w : World)
      → ((os.getsockopt fd so_sndbuf w).0 ≡ none)
        ⊎ ((os.getsockopt fd so_sndbuf w).0 ≡ some (pos v)))
    (small : v ≤ b) (large : b ≤ n) (some_bytes : 0 < n) where
  size_lem : (l : TbListener) → IsWaiting n b l → packet_size os out l (pos b) ≡ pos b
  unfolding ◌-ℤ◌
  size_lem l i = ground (arith, i.file_size, i.total, i.bufsize)

  goes_on : (l : TbListener) → IsWaiting n b l → ltb_ℤ l.total_tx_rx l.file_size ≡ true
  goes_on l i = ground (arith, i.file_size, i.total)

  no_room : (k : ℕ) → ltb_ℤ (pos b) (pos v -ℤ pos k) ≡ false
  unfolding ◌-ℤ◌
  no_room k = ground arith

  -- The thread is aborted, and no byte is counted.
  abbrev pub IsIdle : State World → Type 0
  IsIdle s = (s.status ≡ tb_aborting) × (s.total_tx_rx ≡ pos 0)

  -- Nothing is sent, and nothing changes but the world.
  round-Ends :
      (s : State World)
      → IsWaiting n b s.listener
      → Ends
          (λ _ t. IsWaiting n b t.listener)
          IsIdle
          ((call os (out.outq s.sock_d) >>= λ k. send_if_room os out (pos v) (pos b) k) s)
  unfolding send_if_room tb_abort_thread
  round-Ends s i = elim (queued s.sock_d s.world) [
    | inl e ↦ ground (arith, e, i.calls.f_close, i.total)
    | inr (k, e) ↦ rw (e, no_room k) i
  ]

  loop-Unfinished :
      (fuel : ℕ) (s : State World)
      → IsWaiting n b s.listener
      → Unfinished IsIdle (transfer_loop os out (pos v) fuel (pos b) s)
  unfolding transfer_loop
  loop-Unfinished zero s i = tt
  loop-Unfinished (suc fuel) s i =
      let round = λ (z : ℤ). call os (out.outq s.sock_d) >>= λ k. send_if_room os out (pos v) z k in
      rw (goes_on s.listener i) (
        subst (λ z. Unfinished IsIdle ((round z >> transfer_loop os out (pos v) fuel z) s))
          (sym (size_lem s.listener i))
          (before-Unfinished (λ _ t. IsWaiting n b t.listener) IsIdle (round (pos b))
            (λ _. transfer_loop os out (pos v) fuel (pos b)) s (round-Ends s i)
            (λ _ t j. loop-Unfinished fuel t j)))

  -- The same listener with other times and another status.
  still-IsWaiting :
      (l m : TbListener)
      → m.protocol ≡ l.protocol
      → m.callbacks_set ≡ l.callbacks_set
      → m.file_size ≡ l.file_size
      → m.total_tx_rx ≡ l.total_tx_rx
      → m.bufsize ≡ l.bufsize
      → IsWaiting n b l
      → IsWaiting n b m
  still-IsWaiting l m p c f t b i = record {
    calls = record {
      f_connect = ap (λ q. q.f_connect) p ∙ i.calls.f_connect;
      f_close = ap (λ q. q.f_close) p ∙ i.calls.f_close;
      callbacks = c ∙ i.calls.callbacks;
    };
    file_size = f ∙ i.file_size;
    total = t ∙ i.total;
    bufsize = b ∙ i.bufsize;
  }

  transfer-Unfinished :
      (fuel : ℕ) (s : State World) (size : Option ℤ)
      → ((size ≡ none) ⊎ (size ≡ some (pos v)))
      → IsWaiting n b s.listener
      → Unfinished IsIdle (transfer os out fuel size s)
  unfolding transfer tb_abort_thread
  transfer-Unfinished fuel s size (inl e) i = rw e (aborted s i)
    where
      aborted :
          (s : State World)
          → IsWaiting n b s.listener
          → Unfinished IsIdle (tb_abort_thread os {A = Unit {0}} s)
      aborted s i = ground (arith, i.calls.f_close, i.total)
  transfer-Unfinished fuel s size (inr e) i =
      let started : State World = record {
        listener = record s.listener {
          transfer_time = (tb_start_time os s.transfer_time s.world).0;
        };
        world = (tb_start_time os s.transfer_time s.world).1;
      } in
      rw e (
        after-Unfinished IsIdle
          (start_transfer os >> (λ t. transfer_loop os out (pos v) fuel t.bufsize t))
          (λ _. finish_transfer os) s
          (subst (λ z. Unfinished IsIdle (transfer_loop os out (pos v) fuel z started))
            (sym i.bufsize)
            (loop-Unfinished fuel started
              (still-IsWaiting s.listener started.listener refl refl refl refl refl i))))

  -- A client for UDP whose send buffer holds `v` bytes, no more than its packets of `b` bytes, with
  -- an instance of epoll and a file of at least `b` bytes, never returns: however many rounds it is
  -- given, it uses them all up, or aborts with no byte counted as sent.
  pub tb_udp_client-Unfinished :
      (info : AddrInfo) (fuel waits : ℕ) (epoll : TbEpoll) (s : State World)
      → IsWaiting n b s.listener
      → s.addr_info ≡ some info
      → Unfinished IsIdle (tb_udp_client os out fuel waits (some epoll) s)
  unfolding tb_udp_client tb_finish_time tb_start_time
  tb_udp_client-Unfinished info fuel waits epoll s i addr =
      let opened : State World = record {
        listener = record s.listener { connect_time = (tb_start_time os s.connect_time s.world).0 };
        world = (os.clock_gettime s.world).1;
      } in
      before-Unfinished (IsConnected os connect info opened) IsIdle (tb_connect os)
        (λ _.
          finish_connect os
          >> (set_status os tb_connected
              >> (deref (some epoll) >>= λ e. get >>= λ t.
                  call os (os.getsockopt t.sock_d so_sndbuf) >>= λ size.
                  transfer os out fuel size
                  >> (ack_loop os out waits (record e { w_time = pos 50 }) >> close_client os))))
        opened
        (Ends-widen (IsConnected os connect info opened) (IsRefused os connect info opened) IsIdle
          (tb_connect os opened)
          (tb_connect-or_IsRefused os connect close info opened
            (still-IsWaiting s.listener opened.listener refl refl refl refl refl i).calls addr)
          (λ u q. (q.0, q.2 ∙ i.total)))
        λ rc t g.
          let ready : State World = record {
            listener = record t.listener {
              connect_time = (tb_finish_time os t.connect_time t.world).0;
              status = tb_connected;
            };
            world = (os.getsockopt t.sock_d so_sndbuf (os.clock_gettime t.world).1).1;
          } in
          after-Unfinished IsIdle
            (transfer os out fuel (os.getsockopt t.sock_d so_sndbuf (os.clock_gettime t.world).1).0)
            (λ _. ack_loop os out waits (record epoll { w_time = pos 50 }) >> close_client os) ready
            (transfer-Unfinished fuel ready
              (os.getsockopt t.sock_d so_sndbuf (os.clock_gettime t.world).1).0
              (sndbuf t.sock_d (os.clock_gettime t.world).1)
              (still-IsWaiting s.listener ready.listener (ap (λ l. l.protocol) g.1)
                (ap (λ l. l.callbacks_set) g.1) (ap (λ l. l.file_size) g.1)
                (ap (λ l. l.total_tx_rx) g.1) (ap (λ l. l.bufsize) g.1) i))
