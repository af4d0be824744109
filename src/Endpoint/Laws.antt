-- ===== src/Endpoint/Laws.antt =====
-- What a client of src/tb_endpoint.c comes to: its file, its driver and the end of its thread.
use mathlib.Core.Path.{subst, subst₂}
use fastuserprotocol.Common.{
  Option, ℕ, ◌^◌, ◌<◌, ◌≡◌, ◌⊎◌, refl, sym, ap, inl, inr, some, List, ◌++◌, arith, length,
}
use fastuserprotocol.Common.Int.{ℤ, pos, minus_one}
use fastuserprotocol.Protocol.{Protocol, tcp, send}
use fastuserprotocol.Os.{Os, AddrInfo, ok, Ends, Ends-bind, Ends-widen, ◌>>=◌, bind-ok}
use fastuserprotocol.Os.Contract.{SendsBytes}
use fastuserprotocol.Listener.{TbListener, client, tb_exiting}
use fastuserprotocol.Listener.Net.{State, tb_exit_thread}
use fastuserprotocol.Listener.Net.Laws.{IsTcpClient, IsAborted, same_calls}
use fastuserprotocol.Epoll.{TbEpoll}
use fastuserprotocol.TestFile.{Files, tb_create_test_file}
use fastuserprotocol.Stream.Client.{tb_stream_client}
use fastuserprotocol.Stream.Client.Laws.{IsDone, tb_stream_client-IsDone}
use fastuserprotocol.Udp.Client.{Outgoing}
use fastuserprotocol.Udt.{Udt}
use fastuserprotocol.Endpoint.{Drivers, with_data, create_data, run_client, tb_client}

-- A client for TCP as its thread starts: nothing is sent, and its socket is `fd`.
pub record IsStarted (b fd : ℕ) (info : AddrInfo) (l : TbListener) : Type 0 where
  pub protocol : l.protocol.protocol ≡ tcp
  pub e_type : l.e_type ≡ client
  pub calls : IsTcpClient l
  pub total : l.total_tx_rx ≡ pos 0
  pub bufsize : l.bufsize ≡ pos b
  pub sock_d : l.sock_d ≡ pos fd
  pub addr_info : l.addr_info ≡ some info

-- The thread has ended, after the socket has taken all the data, which is counted, and is closed.
pub record IsDelivered {World : Type 0} (bytes taken taken' : List ℕ) (s : State World)
    : Type 0 where
  pub status : s.status ≡ tb_exiting
  pub sent : taken' ≡ taken ++ bytes
  pub total : s.total_tx_rx ≡ pos (length bytes)
  pub sock_d : s.sock_d ≡ minus_one

module _ {World : Type 0} (os : Os World) (files : Files World) (out : Outgoing World)
    (epoll : Option TbEpoll) (udt_library : Udt World) (others : Drivers World)
    (sent : ℤ → World → List ℕ) (law : SendsBytes os send sent) (bytes : List ℕ) (b fd : ℕ)
    (info : AddrInfo) where
  -- The thread never returns; it ends itself in one of two ways.
  abbrev pub Finished : List ℕ → State World → Type 0
  Finished before s = IsDelivered bytes before (sent (pos fd) s.world) s ⊎ IsAborted os s

  abbrev Never : ℤ → State World → Type 0
  Never r s = ⊥

  exit-Finished :
      (before : List ℕ) (r : ℤ) (s : State World)
      → IsDone bytes before (sent (pos fd) s.world) r s
      → Ends Never (Finished before) (tb_exit_thread os {A = ℤ} s)
  unfolding tb_exit_thread
  exit-Finished before r s d =
      inl (record { status = refl; sent = d.sent; total = d.total; sock_d = d.sock_d })

  -- The listener with its data.
  abbrev pub loaded : State World → World → State World
  loaded s w = record {
    listener = record s.listener { contents = some bytes; file_size = pos (length bytes) };
    world = w;
  }

  driver-Finished :
      (fuel : ℕ) (s : State World) (w : World)
      → 0 < b
      → length bytes < 2 ^ 31
      → length bytes < fuel
      → IsStarted b fd info s.listener
      → Ends Never
          (Finished (sent (pos fd) w))
          ((tb_stream_client os fuel >>= λ total. tb_exit_thread os {A = ℤ}) (loaded s w))
  driver-Finished fuel s w buffer small enough i =
      let before = sent (pos fd) w in
      let done = λ (r : ℤ) (t : State World). IsDone bytes before (sent (pos fd) t.world) r t in
      Ends-bind done Never (Finished before) (tb_stream_client os fuel) (λ total. tb_exit_thread os)
        (loaded s w)
        (Ends-widen done (IsAborted os) (Finished before) (tb_stream_client os fuel (loaded s w))
          (tb_stream_client-IsDone os sent bytes b fd info fuel (loaded s w) law buffer small
            (record {
              tcp = same_calls refl refl i.calls;
              contents = refl;
              file_size = refl;
              total = i.total;
              within = omega arith;
              bufsize = i.bufsize;
              sock_d = i.sock_d;
            })
            i.addr_info enough)
          (λ t a. inr a))
        (λ r t d. exit-Finished before r t d)

  -- The thread of a client for TCP for which data is loaded or made, less than 2 ^ 31 bytes of it and
  -- as many as the size says, ends itself: either all the data has been taken by the socket, in order
  -- and each byte once, and the thread exits, or it aborts. The buffer holds at least one byte, and
  -- one more round than there are bytes is enough.
  pub tb_client-Finished :
      (fuel : ℕ) (s : State World) (w : World)
      → IsStarted b fd info s.listener
      → tb_create_test_file files s.filename s.file_size s.world
        ≡ ok (some bytes, pos (length bytes)) w
      → 0 < b
      → length bytes < 2 ^ 31
      → length bytes < fuel
      → Ends
          (λ _ _. ⊥)
          (Finished (sent (pos fd) w))
          (tb_client os files out epoll udt_library others fuel s)
  unfolding tb_client create_data run_client
  tb_client-Finished fuel s w i made buffer small enough =
      let run = λ (p : Protocol) (t : State World).
        (run_client os files out epoll udt_library others fuel p t.e_type >>= λ total.
        tb_exit_thread os {A = ℤ})
          t in
      let goal = Ends Never (Finished (sent (pos fd) w)) in
      subst goal
        (sym (
          bind-ok (create_data os files out epoll udt_library others)
            (λ _ t. run t.protocol.protocol t) s tt (loaded s w)
            (ap (with_data os files out epoll udt_library others s) made)))
        (subst₂
          (λ p e. goal (
            (run_client os files out epoll udt_library others fuel p e >>= λ total.
            tb_exit_thread os {A = ℤ})
              (loaded s w)))
          (sym i.protocol) (sym i.e_type) (driver-Finished fuel s w buffer small enough i))
