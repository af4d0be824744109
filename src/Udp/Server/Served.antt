-- ===== src/Udp/Server/Served.antt =====
-- tb_udp_server of src/tb_udp.c, from the start to its end.
use Prim.Native.Nat.{min}
use mathlib.Core.Path.{subst}
use fastuserprotocol.Common.{
  ℕ, ◌^◌, ◌<◌, ◌≡◌, refl, ap, ◌∙◌, false, some, List, ◌∷◌, ◌++◌, arith, length, length-replicate,
}
use fastuserprotocol.Common.Int.{ℤ, pos, minus_one, ◌+ℤ◌, to_u64, to_u64-id}
use fastuserprotocol.Protocol.{close}
use fastuserprotocol.Os.{Os, Ends, Ends-bind, ◌>>◌, pure}
use fastuserprotocol.Timer.{tb_start_time, tb_finish_time}
use fastuserprotocol.Session.{TbSession}
use fastuserprotocol.Listener.{tb_disconnected, tb_connected, tb_listening}
use fastuserprotocol.Listener.Net.{State, set_status, start_transfer, finish_transfer}
use fastuserprotocol.Listener.Net.Laws.{IsAborted}
use fastuserprotocol.Udp.Contract.{ReceivesDatagrams}
use fastuserprotocol.Udp.Server.{
  buffered, count_last, receive, server_loop, first_datagram, close_socket, tb_udp_server,
}
use fastuserprotocol.Udp.Server.Laws.{
  IsUdpServer, HasRoom, HasReceived, received_of, NoneEmpty, Counted, counted_total, counted_server,
  receive-Ends,
}
use fastuserprotocol.Udp.Server.Loop.{server_loop-Counted}

-- The server has ended: what it returns is what it has counted, and its socket is closed.
pub record IsServed {World : Type 0} (coming : ℤ → World → List ℕ) (fd total : ℤ) (rest : List ℕ)
    (r : ℤ) (s : State World) : Type 0 where
  pub result : r ≡ total
  pub counted : s.total_tx_rx ≡ total
  pub sock_d : s.sock_d ≡ minus_one
  pub status : s.status ≡ tb_disconnected
  pub still_coming : coming fd s.world ≡ rest

module _ {World : Type 0} (os : Os World) (coming : ℤ → World → List ℕ)
    (law : ReceivesDatagrams os coming) (b : ℕ) (fd : ℤ) where
  -- The listener differs in what the server does not look at.
  same_server :
      (total : ℤ) (s t : State World)
      → t.protocol ≡ s.protocol
      → t.callbacks_set ≡ s.callbacks_set
      → t.sock_d ≡ s.sock_d
      → t.total_tx_rx ≡ s.total_tx_rx
      → t.command ≡ s.command
      → IsUdpServer fd total s.listener
      → IsUdpServer fd total t.listener
  same_server total s t protocol callbacks sock_d bytes command r = record {
    f_recfrom = ap (λ p. p.f_recfrom) protocol ∙ r.f_recfrom;
    f_sendto = ap (λ p. p.f_sendto) protocol ∙ r.f_sendto;
    f_close = ap (λ p. p.f_close) protocol ∙ r.f_close;
    eot = ap (λ p. p.eot) protocol ∙ r.eot;
    callbacks = callbacks ∙ r.callbacks;
    sock_d = sock_d ∙ r.sock_d;
    total_tx_rx = bytes ∙ r.total_tx_rx;
    command = command ∙ r.command;
  }

  buffered-HasRoom : (size : ℤ) → size ≡ pos b → b < 2 ^ 31 → HasRoom b (buffered size)
  buffered-HasRoom size e small =
      let word : to_u64 size ≡ b = ap to_u64 e ∙ to_u64-id b (omega arith) in
      (word, omega (arith, word, length-replicate {A = ℕ} (to_u64 size) 0))

  first_datagram-Ends :
      (total : ℤ) (n : ℕ) (ns : List ℕ) (s : State World)
      → IsUdpServer fd total s.listener
      → s.bufsize ≡ pos b
      → b < 2 ^ 31
      → coming fd s.world ≡ n ∷ ns
      → Ends
          (λ c t.
            IsUdpServer fd (total +ℤ pos (min b n)) t.listener
            × HasRoom b c
            × (coming fd t.world ≡ ns))
          (IsAborted os)
          (first_datagram os s)
  unfolding first_datagram
  first_datagram-Ends total n ns s r size small e =
      let Counted_one = λ (c : TbSession) (t : State World).
        IsUdpServer fd (total +ℤ pos (min b n)) t.listener
        × HasRoom b c
        × (coming fd t.world ≡ ns) in
      let c = buffered s.bufsize in
      let opened : State World = record s {
        listener = record s.listener { status = tb_listening; curr_session = some c };
      } in
      Ends-bind (HasReceived os coming law b fd total n ns) Counted_one (IsAborted os)
        (receive os c) (λ c'. count_last os c' >> (set_status os tb_connected >> pure c')) opened
        (receive-Ends os coming law b fd total n ns c opened
          (same_server total s opened refl refl refl refl refl r)
          (buffered-HasRoom s.bufsize size small) e)
        (λ c' t g.
          let u : State World = record t {
            listener = record t.listener { total_tx_rx = t.listener.total_tx_rx +ℤ c'.last_trans };
          } in
          (
            same_server (total +ℤ pos (min b n)) u
                (record u { listener = record u.listener { status = tb_connected } }) refl refl refl
                refl refl (counted_server os coming law b fd total n ns c' t g),
            g.1,
            g.3,
          ))

  close_socket-Ends :
      (total : ℤ) (rest : List ℕ) (s : State World)
      → Counted os coming law b fd total rest tt s
      → Ends
          (IsServed coming fd total rest)
          (IsAborted os)
          ((finish_transfer os >> close_socket os) s)
  unfolding close_socket tb_finish_time
  close_socket-Ends total rest s (r, e) = record {
    result = r.total_tx_rx;
    counted = r.total_tx_rx;
    sock_d = refl;
    status = refl;
    still_coming =
        law.closing close fd s.sock_d (os.clock_gettime s.world).1
        ∙ law.reading_clock fd s.world
        ∙ e;
  }

  -- A server for UDP with a buffer of at least one byte, and of less than 2 ^ 31, that is told to go on
  -- and is not interrupted by a signal, to which datagrams come in of which the first empty one
  -- after the first of all ends the transmission, either aborts or ends as `IsServed` says: it
  -- returns what it had counted before and what it has received of the datagrams before that one,
  -- of each no more than its buffer holds, and none after it is read. As many rounds as there are
  -- datagrams are enough, and it calls through no null pointer.
  pub tb_udp_server-IsServed :
      (quiet : (w : World) → (os.interrupted w).0 ≡ false) (fuel : ℕ) (total : ℤ) (n : ℕ)
      (ns rest : List ℕ) (s : State World)
      → 0 < b
      → b < 2 ^ 31
      → IsUdpServer fd total s.listener
      → s.bufsize ≡ pos b
      → NoneEmpty ns
      → coming fd s.world ≡ n ∷ (ns ++ 0 ∷ rest)
      → length ns < fuel
      → Ends
          (IsServed coming fd (total +ℤ pos (received_of b (n ∷ ns))) rest)
          (IsAborted os)
          (tb_udp_server os fuel s)
  unfolding tb_udp_server tb_start_time
  tb_udp_server-IsServed quiet fuel total n ns rest s buffer small r size pn e lt =
      let first = total +ℤ pos (min b n) in
      let all = total +ℤ pos (received_of b (n ∷ ns)) in
      let Done = IsServed coming fd all rest in
      Ends-bind
        (λ c t.
          IsUdpServer fd first t.listener × HasRoom b c × (coming fd t.world ≡ ns ++ 0 ∷ rest))
        Done (IsAborted os) (first_datagram os)
        (λ c.
          start_transfer os >> (server_loop os fuel c >> (finish_transfer os >> close_socket os)))
        s (first_datagram-Ends total n (ns ++ 0 ∷ rest) s r size small e)
        (λ c t (r', room, left).
          let started : State World = record {
            listener = record t.listener {
              transfer_time = (tb_start_time os t.transfer_time t.world).0;
            };
            world = (os.clock_gettime t.world).1;
          } in
          Ends-bind (Counted os coming law b fd (first +ℤ pos (received_of b ns)) rest) Done
            (IsAborted os) (server_loop os fuel c) (λ _. finish_transfer os >> close_socket os)
            started
            (server_loop-Counted os coming law b fd quiet buffer fuel first ns rest c started
              (same_server first t started refl refl refl refl refl r') room pn
              (law.reading_clock fd t.world ∙ left) lt)
            (λ _ u g. close_socket-Ends all rest u (
              subst (λ k. IsUdpServer fd k u.listener)
                  (counted_total os coming law b fd total (min b n) ns) g.0,
              g.1,
            )))
