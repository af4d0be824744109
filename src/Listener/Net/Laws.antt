-- ===== src/Listener/Net/Laws.antt =====
-- What the network functions of src/tb_listener.c do on each answer of the system.
use mathlib.Core.Path.{subst, subst₂}
use fastuserprotocol.Common.{
  ℕ, ◌<◌, ◌≤◌, ◌≡◌, refl, sym, ap, ◌∙◌, inl, inr, true, false, some, List, ◌++◌, arith, length,
  take, length-take, Bool-cases,
}
use fastuserprotocol.Common.Int.{ℤ, pos, minus_one, ◌==ℤ◌, pos-ne_minus_one}
use fastuserprotocol.Protocol.{Callee, connect, send, close, tb_socket_error, tb_error_value}
use fastuserprotocol.Os.{Os, AddrInfo, Ends, Ends-widen, Run, ◌>>=◌, ◌>>◌, pure, ok, when, bind-ok}
use fastuserprotocol.Os.Contract.{SendsBytes}
use fastuserprotocol.Listener.{TbListener, Command, tb_aborting}
use fastuserprotocol.Listener.Net.{
  State, bytes_of, send_by, connect_by, judge_error, tb_connect, tb_send_data, tb_abort_thread,
  f_abort, read_command,
}

-- The functions that a TCP client calls through its table, and the callbacks that the parser sets.
pub record IsTcpClient (l : TbListener) : Type 0 where
  pub f_connect : l.protocol.f_connect ≡ some connect
  pub f_send : l.protocol.f_send ≡ some send
  pub f_close : l.protocol.f_close ≡ some close
  pub f_error : l.protocol.f_error ≡ some tb_socket_error
  pub callbacks : l.callbacks_set ≡ true

-- It depends on the table and the callbacks alone.
pub same_calls :
    {l m : TbListener}
    → m.protocol ≡ l.protocol
    → m.callbacks_set ≡ l.callbacks_set
    → IsTcpClient l
    → IsTcpClient m
same_calls p c t = record {
  f_connect = ap (λ q. q.f_connect) p ∙ t.f_connect;
  f_send = ap (λ q. q.f_send) p ∙ t.f_send;
  f_close = ap (λ q. q.f_close) p ∙ t.f_close;
  f_error = ap (λ q. q.f_error) p ∙ t.f_error;
  callbacks = c ∙ t.callbacks;
}

-- The calls that the table has for connecting and closing, and the callbacks.
pub record Connects (g f : Callee) (l : TbListener) : Type 0 where
  pub f_connect : l.protocol.f_connect ≡ some g
  pub f_close : l.protocol.f_close ≡ some f
  pub callbacks : l.callbacks_set ≡ true

module _ {World : Type 0} (os : Os World) where
  abbrev pub IsAborted : State World → Type 0
  IsAborted s = s.status ≡ tb_aborting

  -- The call that connects has succeeded, and has left the listener alone.
  abbrev pub IsConnected : Callee → AddrInfo → State World → ℤ → State World → Type 0
  IsConnected g info s rc s' =
      (rc ≡ pos 0)
      × (s'.listener ≡ s.listener)
      × (s'.world ≡ (os.connect g s.sock_d info s.world).1)
      × (((os.connect g s.sock_d info s.world).0 ==ℤ minus_one) ≡ false)

  -- The call that connects has answered -1, and the thread is aborted; its count is what it was.
  abbrev pub IsRefused : Callee → AddrInfo → State World → State World → Type 0
  IsRefused g info s s' =
      (s'.status ≡ tb_aborting)
      × (((os.connect g s.sock_d info s.world).0 ==ℤ minus_one) ≡ true)
      × (s'.total_tx_rx ≡ s.total_tx_rx)

  pub f_abort-Ends :
      {A : Type 0} (P : A → State World → Type 0) (s : State World)
      → IsTcpClient s.listener
      → Ends P IsAborted (f_abort os s)
  unfolding f_abort tb_abort_thread
  f_abort-Ends P s t = ground (arith, t.f_close, t.callbacks)

  judge_error-Ends :
      (P : ℤ → State World → Type 0) (v : ℤ) (s : State World)
      → IsTcpClient s.listener
      → Ends P IsAborted ((judge_error os v >> pure (pos 0)) s)
  unfolding judge_error tb_error_value f_abort tb_abort_thread
  judge_error-Ends P v s t = ground (arith, t.f_close, t.callbacks, t.f_error)

  -- A send that comes back has taken some of the bytes, the first ones, and left the listener alone.
  abbrev pub Sent : (ℤ → World → List ℕ) → State World → List ℕ → ℤ → State World → Type 0
  Sent sent s bytes rc s' =
      (k : ℕ) × (rc ≡ pos k)
      × (0 < k)
      × (k ≤ length bytes)
      × (s'.listener ≡ s.listener)
      × (sent s.sock_d s'.world ≡ sent s.sock_d s.world ++ take k bytes)

  send_by-Ends :
      (sent : ℤ → World → List ℕ) (s : State World) (bytes : List ℕ)
      → SendsBytes os send sent
      → IsTcpClient s.listener
      → 0 < length bytes
      → Ends (Sent sent s bytes) IsAborted (send_by os (some send) (some bytes) s)
  unfolding send_by
  send_by-Ends sent s bytes law t lt = elim (law.takes s.sock_d bytes s.world) [
    | inl (e, _) ↦ rw e (judge_error-Ends (Sent sent s bytes) minus_one _ t)
    | inr (k, e, kn, some_taken, same) ↦
        rw (e, pos-ne_minus_one k) (k, refl, some_taken lt, kn, refl, same)
  ]

  -- A TCP client that sends bytes, at least one and no more than there are in the buffer, either
  -- has some of the first of them taken and keeps its listener, or aborts.
  pub tb_send_data-Ends :
      (sent : ℤ → World → List ℕ) (s : State World) (buff : List ℕ) (n : ℕ)
      → SendsBytes os send sent
      → IsTcpClient s.listener
      → 0 < n
      → n ≤ length buff
      → Ends (Sent sent s (take n buff)) IsAborted (tb_send_data os buff (pos n) s)
  unfolding tb_send_data
  tb_send_data-Ends sent s buff n law t lt le =
      let fits : bytes_of buff (pos n) ≡ some (take n buff) = ground arith in
      subst₂ (λ f b. Ends (Sent sent s (take n buff)) IsAborted (send_by os f b s)) (sym t.f_send)
        (sym fits) (send_by-Ends sent s (take n buff) law t (omega (arith, length-take n buff)))

  connect_by-Ends :
      (g f : Callee) (info : AddrInfo) (s : State World)
      → Connects g f s.listener
      → Ends (IsConnected g info s) (IsRefused g info s) (connect_by os (some g) (some info) s)
  unfolding connect_by f_abort tb_abort_thread
  connect_by-Ends g f info s t =
      elim (Bool-cases ((os.connect g s.sock_d info s.world).0 ==ℤ minus_one)) [
        | inl bad ↦ rw bad (ground (arith, t.f_close, t.callbacks))
        | inr good ↦ rw good (refl, refl, refl, good)
      ]

  -- What a listener with an address comes to, whatever call connects it.
  pub tb_connect-or_IsRefused :
      (g f : Callee) (info : AddrInfo) (s : State World)
      → Connects g f s.listener
      → s.addr_info ≡ some info
      → Ends (IsConnected g info s) (IsRefused g info s) (tb_connect os s)
  unfolding tb_connect
  tb_connect-or_IsRefused g f info s t addr =
      subst₂ (λ h a. Ends (IsConnected g info s) (IsRefused g info s) (connect_by os h a s))
        (sym t.f_connect) (sym addr) (connect_by-Ends g f info s t)

  -- The same, where it does not matter why a thread is aborted.
  pub tb_connect-by :
      (g f : Callee) (info : AddrInfo) (s : State World)
      → Connects g f s.listener
      → s.addr_info ≡ some info
      → Ends (IsConnected g info s) IsAborted (tb_connect os s)
  tb_connect-by g f info s t addr =
      Ends-widen (IsConnected g info s) (IsRefused g info s) IsAborted (tb_connect os s)
        (tb_connect-or_IsRefused g f info s t addr) (λ u h. h.0)

  -- A TCP client that has an address is connected, by one call that does not answer -1 and leaves
  -- the listener alone, or aborts, after that call has answered -1 and with its count unchanged.
  pub tb_connect-Ends :
      (info : AddrInfo) (s : State World)
      → IsTcpClient s.listener
      → s.addr_info ≡ some info
      → Ends
          (λ rc s'.
            (rc ≡ pos 0)
            × (s'.listener ≡ s.listener)
            × (s'.world ≡ (os.connect connect s.sock_d info s.world).1)
            × (((os.connect connect s.sock_d info s.world).0 ==ℤ minus_one) ≡ false))
          (λ s'.
            (s'.status ≡ tb_aborting)
            × (((os.connect connect s.sock_d info s.world).0 ==ℤ minus_one) ≡ true)
            × (s'.total_tx_rx ≡ s.total_tx_rx))
          (tb_connect os s)
  tb_connect-Ends info s t addr =
      tb_connect-or_IsRefused connect close info s
        (record { f_connect = t.f_connect; f_close = t.f_close; callbacks = t.callbacks }) addr

  -- Without a signal the command is what it was.
  pub read_command-quiet :
      (s : State World)
      → (os.interrupted s.world).0 ≡ false
      → read_command os s ≡ ok s.command (record s { world = (os.interrupted s.world).1 })
  unfolding read_command
  read_command-quiet s quiet = rw (quiet, when) refl

  -- Without a signal, code that reads the command goes on with the one of the listener.
  pub read_on :
      {A : Type 0} (P : A → State World → Type 0) (s : State World) (c : Command)
      (f : Command → State World → Run (State World) A)
      → (os.interrupted s.world).0 ≡ false
      → s.command ≡ c
      → Ends P IsAborted (f c (record s { world = (os.interrupted s.world).1 }))
      → Ends P IsAborted ((read_command os >>= f) s)
  read_on P s c f quiet e h =
      let w = (os.interrupted s.world).1 in
      subst (Ends P IsAborted)
        (sym (
          bind-ok (read_command os) f s s.command (record s { world = w })
            (read_command-quiet s quiet)
          ∙ ap (λ d. f d (record s { world = w })) e))
        h
