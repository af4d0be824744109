-- ===== src/Stream/Client/Laws.antt =====
-- What tb_stream_client of src/tb_stream.c sends.
use Prim.Native.Nat.{min}
use mathlib.Core.Path.{subst, subst₂}
use mathlib.Core.List.{append-nil}
use fastuserprotocol.Common.{
  ℕ, zero, suc, ◌+◌, ◌-◌, ◌^◌, ◌<◌, ◌≤◌, ◌≡◌, sym, ap, ◌∙◌, inl, inr, false, some, List, ◌++◌,
  arith, length, take, take-length, ltb, Bool-cases,
}
use fastuserprotocol.Common.Int.{◌==ℤ◌, ℤ, pos, minus_one, ltb_ℤ}
use fastuserprotocol.Protocol.{connect, send, close}
use fastuserprotocol.Os.{Os, AddrInfo, Ends, Ends-bind, Ends-mono, ◌>>=◌, ◌>>◌, when, get}
use fastuserprotocol.Os.Contract.{SendsBytes}
use fastuserprotocol.Listener.{tb_connected, tb_disconnected}
use fastuserprotocol.Timer.{tb_start_time, tb_finish_time}
use fastuserprotocol.Listener.Net.{
  State, set_status, start_transfer, finish_transfer, finish_connect, tb_connect,
}
use fastuserprotocol.Listener.Net.Laws.{IsAborted, tb_connect-by}
use fastuserprotocol.Stream.Client.{
  send_chunk, count_bytes, client_loop, open_client, close_client, tb_stream_client,
}
use fastuserprotocol.Stream.Client.Round.{
  IsSending, SizeFits, HasSent, Chunk, next_size_lem, send_chunk-Ends, with_count, counted_round,
  size_kept,
}

-- What a client that has come to its end has done: it returns the size of its data, which the
-- socket has taken, all of it in order and nothing else; it has counted it, and has closed the
-- socket.
pub record IsDone {World : Type 0} (bytes : List ℕ) (taken taken' : List ℕ) (r : ℤ)
    (s : State World) : Type 0 where
  pub result : r ≡ pos (length bytes)
  pub sent : taken' ≡ taken ++ bytes
  pub total : s.total_tx_rx ≡ pos (length bytes)
  pub sock_d : s.sock_d ≡ minus_one
  pub status : s.status ≡ tb_disconnected

module _ {World : Type 0} (os : Os World) where
  module _ (sent : ℤ → World → List ℕ) (law : SendsBytes os send sent) (bytes : List ℕ) (b fd : ℕ)
      (buffer : 0 < b) (small : length bytes < 2 ^ 31) where
    abbrev AllSent : List ℕ → Unit {0} → State World → Type 0
    AllSent before _ s = HasSent sent bytes b fd before (length bytes) s

    all_sent :
        (before : List ℕ) (k : ℕ) (s : State World)
        → HasSent sent bytes b fd before k s
        → length bytes ≤ k
        → HasSent sent bytes b fd before (length bytes) s
    all_sent before k s (i, h) le =
        let e : k ≡ length bytes = omega (arith, i.within) in
        subst (λ n. HasSent sent bytes b fd before n s) e (i, h)

    loop_goes_on :
        (k : ℕ) (s : State World)
        → IsSending bytes b fd k s.listener
        → ltb_ℤ s.total_tx_rx s.file_size ≡ ltb k (length bytes)
    loop_goes_on k s i =
        subst₂ (λ x y. ltb_ℤ x y ≡ ltb k (length bytes)) (sym i.total) (sym i.file_size)
          (ground arith)

    client_loop-Ends :
        (fuel : ℕ) (before : List ℕ) (k : ℕ) (s : State World) (sz : ℤ)
        → HasSent sent bytes b fd before k s
        → SizeFits bytes b k sz
        → length bytes - k < fuel
        → Ends (AllSent before) (IsAborted os) (client_loop os fuel sz s)
    unfolding client_loop
    client_loop-Ends zero before k s sz h f lt = absurd (omega arith)
    client_loop-Ends (suc fuel) before k s sz (i, h) f lt =
        let m = min b (length bytes - k) in
        subst₂
          (λ t z.
            Ends (AllSent before) (IsAborted os)
              (when t (send_chunk os z >>= λ rc. count_bytes os rc >> client_loop os fuel z) s))
          (sym (loop_goes_on k s i)) (sym (next_size_lem os bytes b fd k s.listener sz i f small))
          (elim (Bool-cases (ltb k (length bytes))) [
            | inl more ↦ rw more (
                Ends-bind (Chunk sent bytes b fd before k) (AllSent before) (IsAborted os)
                  (send_chunk os (pos m)) (λ rc. count_bytes os rc >> client_loop os fuel (pos m)) s
                  (send_chunk-Ends os sent law bytes b fd buffer small before k s (i, h)
                    (ground arith))
                  λ rc t c.
                    let (j, e, some_more, le, i', h') = c in
                    client_loop-Ends fuel before (k + j) (with_count rc t) (pos m)
                      (
                        counted_round os sent law bytes b fd buffer small before k j rc t e le i',
                        h',
                      )
                      (size_kept bytes b k j) (omega arith))
            | inr done ↦ rw done (all_sent before k s (i, h) (ground arith))
          ])

    open_client-Ends :
        (before : List ℕ) (info : AddrInfo) (s : State World)
        → HasSent sent bytes b fd before 0 s
        → s.addr_info ≡ some info
        → Ends (λ _ s'. HasSent sent bytes b fd before 0 s') (IsAborted os) (open_client os s)
    unfolding open_client tb_start_time tb_finish_time
    open_client-Ends before info s (i, h) addr =
        Ends-bind (λ _ s'. HasSent sent bytes b fd before 0 s')
          (λ _ s'. HasSent sent bytes b fd before 0 s') (IsAborted os) (tb_connect os)
          (λ _. finish_connect os >> (start_transfer os >> set_status os tb_connected)) opened
          (Ends-mono
            (λ rc s'.
              (rc ≡ pos 0)
              × (s'.listener ≡ opened.listener)
              × (s'.world ≡ (os.connect connect s.sock_d info opened.world).1)
              × (((os.connect connect s.sock_d info opened.world).0 ==ℤ minus_one) ≡ false))
            (λ _ s'. HasSent sent bytes b fd before 0 s') (IsAborted os) (tb_connect os opened)
            (tb_connect-by os connect close info opened
              (record {
                f_connect = i.tcp.f_connect;
                f_close = i.tcp.f_close;
                callbacks = i.tcp.callbacks;
              })
              addr)
            λ rc t g. (
              subst (IsSending bytes b fd 0) (sym g.1) (ground (arith, i)),
              ap (sent (pos fd)) g.2
                  ∙ law.connecting connect (pos fd) s.sock_d info opened.world
                  ∙ law.reading_clock (pos fd) s.world
                  ∙ h,
            ))
          (λ _ t g. (
            ground (arith, g.0),
            law.reading_clock (pos fd) _ ∙ law.reading_clock (pos fd) t.world ∙ g.1,
          ))
      where
        opened : State World
        opened = record {
          listener = record s.listener {
            connect_time = (tb_start_time os s.connect_time s.world).0;
          };
          world = (os.clock_gettime s.world).1;
        }

    close_client-Ends :
        (before : List ℕ) (s : State World)
        → HasSent sent bytes b fd before (length bytes) s
        → Ends
            (λ r s'. IsDone bytes before (sent (pos fd) s'.world) r s')
            (IsAborted os)
            ((finish_transfer os >> close_client os) s)
    unfolding close_client tb_finish_time
    close_client-Ends before s (i, h) =
        let all : take (length bytes) bytes ≡ bytes =
          take-length (length bytes) bytes (omega arith) in
        ground (
          arith,
          all,
          i.tcp.f_close,
          i.sock_d,
          i.total,
          law.reading_clock (pos fd) s.world,
          law.closing close (pos fd) s.sock_d (os.clock_gettime s.world).1,
        )

  -- A TCP client with data of less than 2 ^ 31 bytes, all of it still to be sent, and a buffer of
  -- at least one byte either sends all its data, in order, each byte once, and ends as `IsDone`
  -- says, or ends its thread aborted. It never reads beyond its data, calls through no null
  -- pointer, and one more round than there are bytes is enough.
  pub tb_stream_client-IsDone :
      (sent : ℤ → World → List ℕ) (bytes : List ℕ) (b fd : ℕ) (info : AddrInfo) (fuel : ℕ)
      (s : State World)
      → SendsBytes os send sent
      → 0 < b
      → length bytes < 2 ^ 31
      → IsSending bytes b fd 0 s.listener
      → s.addr_info ≡ some info
      → length bytes < fuel
      → Ends
          (λ r s'. IsDone bytes (sent (pos fd) s.world) (sent (pos fd) s'.world) r s')
          (IsAborted os)
          (tb_stream_client os fuel s)
  unfolding tb_stream_client
  tb_stream_client-IsDone sent bytes b fd info fuel s law buffer small i addr enough =
      let before = sent (pos fd) s.world in
      let done = λ (r : ℤ) (s' : State World). IsDone bytes before (sent (pos fd) s'.world) r s' in
      Ends-bind (λ _ s'. HasSent sent bytes b fd before 0 s') done (IsAborted os) (open_client os)
        (λ _.
          get >>= λ s'. client_loop os fuel s'.bufsize >> (finish_transfer os >> close_client os))
        s
        (open_client-Ends sent law bytes b fd buffer small before info s
          (i, sym (append-nil before)) addr)
        λ _ t g.
          Ends-bind (AllSent sent law bytes b fd buffer small before) done (IsAborted os)
            (client_loop os fuel t.bufsize) (λ _. finish_transfer os >> close_client os) t
            (client_loop-Ends sent law bytes b fd buffer small fuel before 0 t t.bufsize g
              (inl g.0.bufsize) (omega arith))
            (λ _ u f. close_client-Ends sent law bytes b fd buffer small before u f)
