-- ===== src/Udp/Server/Laws.antt =====
-- What tb_udp_server of src/tb_udp.c does with one datagram.
use Prim.Native.Nat.{min}
use mathlib.Core.Path.{subst, subst₂}
use fastuserprotocol.Common.{
  ℕ, ◌+◌, ◌<◌, ◌≤◌, ◌≡◌, sym, ap, ◌∙◌, inl, inr, true, some, List, [], ◌∷◌, arith, length,
  length-append, drop, length-drop, take, Bool-cases,
}
use fastuserprotocol.Common.Int.{
  ℤ, pos, minus_one, ◌+ℤ◌, ◌==ℤ◌, +ℤ_assoc, pos-add, pos-ne_minus_one,
}
use fastuserprotocol.Protocol.{recvfrom, sendto, close}
use fastuserprotocol.Os.{Os, Ends, Ends-bind, ◌>>◌, pure}
use fastuserprotocol.Session.{TbSession}
use fastuserprotocol.Listener.{TbListener, tb_continue}
use fastuserprotocol.Listener.Net.{
  State, f_abort, tb_abort_thread, tb_recv_from, recv_from_by, tb_send_to, send_to_by, bytes_of,
  overwrite,
}
use fastuserprotocol.Listener.Net.Laws.{IsAborted}
use fastuserprotocol.Udp.Contract.{ReceivesDatagrams}
use fastuserprotocol.Udp.Server.{attach, receive}

-- A server for UDP at the socket `fd` that has counted `total` bytes and is told to go on.
pub record IsUdpServer (fd total : ℤ) (l : TbListener) : Type 0 where
  pub f_recfrom : l.protocol.f_recfrom ≡ some recvfrom
  pub f_sendto : l.protocol.f_sendto ≡ some sendto
  pub f_close : l.protocol.f_close ≡ some close
  pub eot : l.protocol.eot ≡ pos 0
  pub callbacks : l.callbacks_set ≡ true
  pub sock_d : l.sock_d ≡ fd
  pub total_tx_rx : l.total_tx_rx ≡ total
  pub command : l.command ≡ tb_continue

-- A session with a buffer of at least the size that it says.
abbrev pub HasRoom : ℕ → TbSession → Type 0
HasRoom b c = (c.data_size ≡ b) × (b ≤ length c.contents)

-- What is received of datagrams of these sizes into a buffer of size `b`.
abbrev pub received_of : ℕ → List ℕ → ℕ
received_of b [] = 0
received_of b (n ∷ ns) = min b n + received_of b ns

-- No datagram is empty.
abbrev pub NoneEmpty : List ℕ → Type 0
NoneEmpty [] = Unit {0}
NoneEmpty (n ∷ ns) = (0 < n) × NoneEmpty ns

module _ {World : Type 0} (os : Os World) (coming : ℤ → World → List ℕ)
    (law : ReceivesDatagrams os coming) (b : ℕ) (fd : ℤ) where
  -- A datagram of size `n` has come in.
  abbrev pub HasReceived : ℤ → ℕ → List ℕ → TbSession → State World → Type 0
  HasReceived total n ns c s =
      IsUdpServer fd total s.listener
      × HasRoom b c
      × (c.last_trans ≡ pos (min b n))
      × (coming fd s.world ≡ ns)

  abort-Ends :
      {A : Type 0} (P : A → State World → Type 0) (total : ℤ) (s : State World)
      → IsUdpServer fd total s.listener
      → Ends P (IsAborted os) (f_abort os s)
  unfolding f_abort tb_abort_thread
  abort-Ends P total s r = ground (arith, r.f_close, r.callbacks)

  grown : (bytes buff : List ℕ) → b ≤ length buff → b ≤ length (overwrite bytes buff)
  grown bytes buff le =
      omega (arith, length-append bytes (drop (length bytes) buff), length-drop (length bytes) buff)

  recv_from_by-Ends :
      (total : ℤ) (n : ℕ) (ns : List ℕ) (c : TbSession) (s : State World)
      → IsUdpServer fd total s.listener
      → HasRoom b c
      → coming fd s.world ≡ n ∷ ns
      → Ends (HasReceived total n ns) (IsAborted os) (recv_from_by os (some recvfrom) c s)
  unfolding recv_from_by
  recv_from_by-Ends total n ns c s r (size, room) e =
      let at : coming s.sock_d s.world ≡ n ∷ ns =
        subst (λ d. coming d s.world ≡ n ∷ ns) (sym r.sock_d) e in
      elim (law.answers s.sock_d c.data_size s.world n ns at) [
        | inl bad ↦ rw bad (abort-Ends (HasReceived total n ns) total _ r)
        | inr (got, left) ↦
            rw (got, pos-ne_minus_one (min c.data_size n))
              (
                r,
                (size, grown (os.recv recvfrom s.sock_d c.data_size s.world).1 c.contents room),
                ap (λ k. pos (min k n)) size,
                subst (λ d. coming d (os.recv recvfrom s.sock_d c.data_size s.world).2 ≡ ns)
                    r.sock_d left,
              )
      ]

  pub receive-Ends :
      (total : ℤ) (n : ℕ) (ns : List ℕ) (c : TbSession) (s : State World)
      → IsUdpServer fd total s.listener
      → HasRoom b c
      → coming fd s.world ≡ n ∷ ns
      → Ends (HasReceived total n ns) (IsAborted os) (receive os c s)
  unfolding tb_recv_from
  receive-Ends total n ns c s r room e =
      Ends-bind (HasReceived total n ns) (HasReceived total n ns) (IsAborted os) (tb_recv_from os c)
        (λ c'. attach os c' >> pure c') s
        (subst (λ f. Ends (HasReceived total n ns) (IsAborted os) (recv_from_by os f c s))
          (sym r.f_recfrom) (recv_from_by-Ends total n ns c s r room e))
        (λ c' t (r', room', last, left). (
          record {
            f_recfrom = r'.f_recfrom;
            f_sendto = r'.f_sendto;
            f_close = r'.f_close;
            eot = r'.eot;
            callbacks = r'.callbacks;
            sock_d = r'.sock_d;
            total_tx_rx = r'.total_tx_rx;
            command = r'.command;
          },
          room',
          last,
          left,
        ))

  send_to_by-Ends :
      (total : ℤ) (rest : List ℕ) (bytes : List ℕ) (s : State World)
      → IsUdpServer fd total s.listener
      → coming fd s.world ≡ rest
      → Ends
          (λ _ s'. IsUdpServer fd total s'.listener × (coming fd s'.world ≡ rest))
          (IsAborted os)
          (send_to_by os (some sendto) (some bytes) s)
  unfolding send_to_by
  send_to_by-Ends total rest bytes s r e =
      let rc = (os.send sendto s.sock_d bytes s.world).0 in
      elim (Bool-cases (rc ==ℤ minus_one)) [
        | inl bad ↦ rw bad (abort-Ends _ total _ r)
        | inr good ↦ rw good (r, law.sending sendto fd s.sock_d bytes s.world ∙ e)
      ]

  pub tb_send_to-Ends :
      (total : ℤ) (rest : List ℕ) (c : TbSession) (s : State World)
      → IsUdpServer fd total s.listener
      → HasRoom b c
      → coming fd s.world ≡ rest
      → Ends
          (λ _ s'. IsUdpServer fd total s'.listener × (coming fd s'.world ≡ rest))
          (IsAborted os)
          (tb_send_to os c s)
  unfolding tb_send_to
  tb_send_to-Ends total rest c s r (size, room) e =
      let P = λ (_ : ℤ) (s' : State World).
        IsUdpServer fd total s'.listener × (coming fd s'.world ≡ rest) in
      let whole : bytes_of c.contents (pos c.data_size) ≡ some (take c.data_size c.contents) =
        ground arith in
      subst₂ (λ f o. Ends P (IsAborted os) (send_to_by os f o s)) (sym r.f_sendto) (sym whole)
        (send_to_by-Ends total rest (take c.data_size c.contents) s r e)

  -- The loop is over with so many bytes counted, and these datagrams still to come.
  abbrev pub Counted : ℤ → List ℕ → Unit {0} → State World → Type 0
  Counted total rest _ s = IsUdpServer fd total s.listener × (coming fd s.world ≡ rest)

  pub counted_total :
      (total : ℤ) (n : ℕ) (ns : List ℕ)
      → total +ℤ pos n +ℤ pos (received_of b ns) ≡ total +ℤ pos (n + received_of b ns)
  counted_total total n ns =
      +ℤ_assoc total (pos n) (pos (received_of b ns))
      ∙ ap (λ k. total +ℤ k) (pos-add n (received_of b ns))

  abbrev pub with_last : TbSession → State World → State World
  with_last c s = record s {
    listener = record s.listener { total_tx_rx = s.listener.total_tx_rx +ℤ c.last_trans };
  }

  pub counted_server :
      (total : ℤ) (n : ℕ) (ns : List ℕ) (c : TbSession) (s : State World)
      → HasReceived total n ns c s
      → IsUdpServer fd (total +ℤ pos (min b n)) (with_last c s).listener
  counted_server total n ns c s (r, room, last, left) = record {
    f_recfrom = r.f_recfrom;
    f_sendto = r.f_sendto;
    f_close = r.f_close;
    eot = r.eot;
    callbacks = r.callbacks;
    sock_d = r.sock_d;
    total_tx_rx = ap (λ t. t +ℤ c.last_trans) r.total_tx_rx ∙ ap (λ k. total +ℤ k) last;
    command = r.command;
  }
