-- ===== src/Udt/Client/Round.antt =====
-- One round of tb_udt_client of src/tb_udt.c.
use mathlib.Core.Path.{subst, subst₂}
use fastuserprotocol.Common.{
  ℕ, ◌+◌, ◌-◌, ◌^◌, ◌<◌, ◌≤◌, ◌≡◌, refl, sym, ap, ◌∙◌, inl, inr, some, List, ◌++◌, arith, length,
  take, drop, length-drop, length-take, append-next, Bool-cases,
}
use fastuserprotocol.Common.Int.{ℤ, pos, ◌+ℤ◌, pos-add, pos-ne_minus_one}
use fastuserprotocol.Protocol.{udt_connect, udt_send, udt_close}
use fastuserprotocol.Os.{Os, Ends, when, ok, get, pure, ◌>>=◌, bind-ok}
use fastuserprotocol.Os.Contract.{SendsBytes, SignalsSendNothing}
use fastuserprotocol.Listener.{TbListener, Command, client, tb_exit}
use fastuserprotocol.Listener.Net.{State, tb_abort_thread, read_command, sig_action}
use fastuserprotocol.Listener.Net.Laws.{Connects, IsAborted}
use fastuserprotocol.Stream.Client.{rest_of}
use fastuserprotocol.Stream.Client.Round.{with_count}
use fastuserprotocol.Udt.{Udt}
use fastuserprotocol.Udt.Client.{buffer_from, send_buffer, send_rest}

-- A client for UDT with `k` bytes of its data sent, and a buffer of `b` bytes.
pub record IsUploading (bytes : List ℕ) (b fd : ℕ) (k : ℕ) (l : TbListener) : Type 0 where
  pub calls : Connects udt_connect udt_close l
  pub e_type : l.e_type ≡ client
  pub contents : l.contents ≡ some bytes
  pub file_size : l.file_size ≡ pos (length bytes)
  pub total : l.total_tx_rx ≡ pos k
  pub within : k ≤ length bytes
  pub bufsize : l.bufsize ≡ pos b
  pub sock_d : l.sock_d ≡ pos fd

module _ {World : Type 0} where
  -- The socket has taken the first `k` bytes, after those that it had, and they are counted.
  abbrev pub HasUploaded : (ℤ → World → List ℕ) → List ℕ → ℕ → ℕ → List ℕ → ℕ → State World → Type 0
  HasUploaded sent bytes b fd before k s =
      IsUploading bytes b fd k s.listener × (sent (pos fd) s.world ≡ before ++ take k bytes)

  -- The answer is the command that the listener then has.
  abbrev pub Read :
      (ℤ → World → List ℕ) → List ℕ → ℕ → ℕ → List ℕ → ℕ → Command → State World → Type 0
  Read sent bytes b fd before k c s =
      (s.listener.command ≡ c) × HasUploaded sent bytes b fd before k s

  -- One more send has been made and counted.
  abbrev pub Sent : (ℤ → World → List ℕ) → List ℕ → ℕ → ℕ → List ℕ → ℕ → ℤ → State World → Type 0
  Sent sent bytes b fd before k rc s =
      (j : ℕ) × (0 < j) × (HasUploaded sent bytes b fd before (k + j) (with_count rc s))

module _ {World : Type 0} (os : Os World) (udt : Udt World) (sent : ℤ → World → List ℕ)
    (law : SendsBytes os udt_send sent) (bytes : List ℕ) (b fd : ℕ) (buffer : 0 < b)
    (small : length bytes < 2 ^ 31) where
  signalled :
      (k : ℕ) (l : TbListener)
      → IsUploading bytes b fd k l
      → IsUploading bytes b fd k (record l { command = tb_exit })
  signalled k l i = record {
    calls = record {
      f_connect = i.calls.f_connect;
      f_close = i.calls.f_close;
      callbacks = i.calls.callbacks;
    };
    e_type = i.e_type;
    contents = i.contents;
    file_size = i.file_size;
    total = i.total;
    within = i.within;
    bufsize = i.bufsize;
    sock_d = i.sock_d;
  }

  abbrev stopped : State World → State World
  stopped s = record {
    listener = record s.listener { command = tb_exit };
    world = os.shutdown s.sock_d s.world;
  }

  sig_action-client : (s : State World) → s.e_type ≡ client → sig_action os s ≡ ok tt (stopped s)
  sig_action-client s e = rw e refl

  -- A signal changes the command only, and nothing is sent meanwhile.
  pub read_command-Ends :
      SignalsSendNothing os sent
      → (before : List ℕ) (k : ℕ) (s : State World) → HasUploaded sent bytes b fd before k s
      → Ends (Read sent bytes b fd before k) (IsAborted os) (read_command os s)
  unfolding read_command
  read_command-Ends calm before k s (i, h) =
      let w = (os.interrupted s.world).1 in
      let checked = calm.checking (pos fd) s.world ∙ h in
      elim (Bool-cases (os.interrupted s.world).0) [
        | inl hit ↦
            rw (hit, when)
              (subst (Ends (Read sent bytes b fd before k) (IsAborted os))
                (sym (
                  bind-ok (sig_action os) (λ _. get >>= λ t. pure t.command)
                    (record s { world = w }) tt (stopped (record s { world = w }))
                    (sig_action-client (record s { world = w }) i.e_type)))
                (refl, (signalled k s.listener i, calm.shutting (pos fd) s.sock_d w ∙ checked)))
        | inr quiet ↦ rw (quiet, when) (refl, (i, checked))
      ]

  counted :
      (k j : ℕ) (rc : ℤ) (s : State World)
      → rc ≡ pos j
      → j ≤ length bytes - k
      → IsUploading bytes b fd k s.listener
      → IsUploading bytes b fd (k + j) (with_count rc s).listener
  counted k j rc s e le i = record {
    calls = record {
      f_connect = i.calls.f_connect;
      f_close = i.calls.f_close;
      callbacks = i.calls.callbacks;
    };
    e_type = i.e_type;
    contents = i.contents;
    file_size = i.file_size;
    total = subst₂ (λ x y. x +ℤ y ≡ pos (k + j)) (sym i.total) (sym e) (pos-add k j);
    within = omega (arith, i.within);
    bufsize = i.bufsize;
    sock_d = i.sock_d;
  }

  send_buffer-Ends :
      (before : List ℕ) (k m : ℕ) (s : State World)
      → HasUploaded sent bytes b fd before k s
      → m ≤ length bytes - k
      → 0 < m
      → Ends
          (Sent sent bytes b fd before k)
          (IsAborted os)
          (send_buffer os udt (some (take m (drop k bytes))) s)
  unfolding send_buffer tb_abort_thread
  send_buffer-Ends before k m s (i, h) le some_left =
      let next = take m (drop k bytes) in
      let size : length next ≡ m =
        omega (arith, length-take m (drop k bytes), length-drop k bytes) in
      elim (law.takes s.sock_d next s.world) [
        | inl (e, _) ↦ ground (arith, e, i.calls.f_close)
        | inr (j, e, fits, some_taken, got) ↦
            rw (e, pos-ne_minus_one j)
              (
                j,
                some_taken (omega (arith, size)),
                (
                  counted k j (pos j) s refl (omega (arith, size)) i,
                  subst
                        (λ d.
                          sent d (os.send udt_send s.sock_d next s.world).1
                          ≡ sent d s.world ++ take j next)
                        i.sock_d got
                      ∙ ap (λ xs. xs ++ take j next) h
                      ∙ append-next before bytes k j m (omega (arith, size)),
                ),
              )
      ]

  pub send_rest-Ends :
      (before : List ℕ) (k m : ℕ) (s : State World)
      → HasUploaded sent bytes b fd before k s
      → m ≤ length bytes - k
      → 0 < m
      → Ends (Sent sent bytes b fd before k) (IsAborted os) (send_rest os udt (pos m) s)
  unfolding send_rest
  send_rest-Ends before k m s (i, h) le some_left =
      let there : buffer_from os udt (rest_of os s.contents s.total_tx_rx) (pos m)
          ≡ some (take m (drop k bytes)) =
        subst₂ (λ c t. buffer_from os udt (rest_of os c t) (pos m) ≡ some (take m (drop k bytes)))
          (sym i.contents) (sym i.total) (ground (arith, i.within, length-drop k bytes)) in
      subst (λ o. Ends (Sent sent bytes b fd before k) (IsAborted os) (send_buffer os udt o s))
        (sym there) (send_buffer-Ends before k m s (i, h) le some_left)
