-- ===== src/Stream/Connection/Finished.antt =====
-- How a connection of a client ends, tb_stream_connection of src/tb_stream.c.
use mathlib.Core.Path.{subst, subst₂}
use mathlib.Core.List.{append-nil}
use fastuserprotocol.Common.{
  ℕ, ◌^◌, ◌<◌, ◌≤◌, ◌≡◌, refl, sym, ap, ◌∙◌, ◌⊎◌, inl, inr, true, false, some, List, ◌++◌, arith,
  if◌then◌else◌, length, take, take-length, Bool-cases,
}
use fastuserprotocol.Common.Int.{ℤ, pos, minus_one, ◌==ℤ◌}
use fastuserprotocol.Protocol.{Callee, connect, send}
use fastuserprotocol.Os.{Os, AddrInfo, Run, Ends, Ends-bind, ◌>>=◌, ◌>>◌, pure}
use fastuserprotocol.Os.Contract.{SendsBytes}
use fastuserprotocol.Timer.{TbTime, tb_start_time, tb_finish_time}
use fastuserprotocol.Session.{session_complete, session_connected}
use fastuserprotocol.Stream.Connection.{
  Conn, connection_loop, transfer, tb_stream_connection, connection_by, start_time, finish_time,
  connect_session, put_connect, put_transfer, set_session,
}
use fastuserprotocol.Stream.Connection.Laws.{
  IsMidway, SentSoFar, SendFailed, LoopDone, Never, connection_loop-Ends,
}

module _ (bytes : List ℕ) (b fd : ℕ) (small : length bytes < 2 ^ 31) {World : Type 0}
    (os : Os World) (f_send : Callee) (sent : ℤ → World → List ℕ) (law : SendsBytes os f_send sent)
    (buffer : 0 < b) where
  abbrev Sending : List ℕ → ℕ → Conn World → Type 0
  Sending before k s = SentSoFar bytes b fd small os f_send sent law buffer before k s

  abbrev Failed : ℕ → Conn World → Type 0
  Failed k s = SendFailed bytes b fd small os f_send sent law buffer k s

  -- `conn` is what the connect comes to. If it does not answer -1, the thread returns 0, has sent all
  -- its bytes, and is complete; or it returns -1, with the first bytes sent, as many as it has
  -- counted, and its last call has failed: that was the connect, or a send of the next bytes.
  abbrev pub IsFinished : ℤ × World → List ℕ → ℤ → Conn World → Type 0
  IsFinished conn before r s =
      ((r ≡ pos 0)
        × ((conn.0 ==ℤ minus_one) ≡ false)
        × (s.total_bytes ≡ pos (length bytes))
        × (sent (pos fd) s.world ≡ before ++ bytes)
        × (s.status ≡ session_complete))
      ⊎ ((r ≡ minus_one)
          × ((k : ℕ) × (k ≤ length bytes)
              × (s.total_bytes ≡ pos k)
              × (sent (pos fd) s.world ≡ before ++ take k bytes)
              × ((((conn.0 ==ℤ minus_one) ≡ true) × (k ≡ 0) × (s.world ≡ conn.1))
                  ⊎ (((conn.0 ==ℤ minus_one) ≡ false) × Failed k s))))

  abbrev Ended : List ℕ → ℤ → Conn World → Type 0
  Ended before r s = LoopDone bytes b fd small os f_send sent law buffer before r s

  abbrev Exits : Conn World → Type 0
  Exits s = Never bytes b fd small os f_send sent law buffer s

  -- What the thread does with the answer of its loop.
  abbrev close_transfer : ℤ → Conn World → Run (Conn World) ℤ
  close_transfer rc = if rc ==ℤ minus_one then pure minus_one else λ u.
      (finish_time os u.transfer_t put_transfer
          >> (set_session os (λ c. record c { status = session_complete }) >> pure (pos 0)))
        u

  close_transfer-Ends :
      (conn : ℤ × World) (before : List ℕ) (rc : ℤ) (s : Conn World)
      → (conn.0 ==ℤ minus_one) ≡ false
      → Ended before rc s
      → Ends (IsFinished conn before) Exits (close_transfer rc s)
  unfolding finish_time tb_finish_time
  close_transfer-Ends conn before rc s good (inl (e, (i, h))) =
      let (t, at) = i.transfer_t in
      let all : take (length bytes) bytes ≡ bytes =
        take-length (length bytes) bytes (omega arith) in
      rw e (
        subst
          (λ o. Ends (IsFinished conn before) Exits (
            (finish_time os o put_transfer
                >> (set_session os (λ c. record c { status = session_complete }) >> pure (pos 0)))
              s))
          (sym at)
          (inl (
            refl,
            good,
            i.total_bytes,
            law.reading_clock (pos fd) s.world ∙ h ∙ ap (λ xs. before ++ xs) all,
            refl,
          )))
  close_transfer-Ends conn before rc s good (inr (e, (k, (i, h), failed))) =
      rw e (inr (refl, (k, i.within, i.total_bytes, h, inr (good, failed))))

  transfer-Ends :
      (conn : ℤ × World) (fuel : ℕ) (before : List ℕ) (s : Conn World) (ct : TbTime)
      → (conn.0 ==ℤ minus_one) ≡ false
      → Sending before 0 s
      → s.connect_t ≡ some ct
      → length bytes < fuel
      → Ends (IsFinished conn before) Exits (transfer os f_send fuel s)
  unfolding transfer finish_time start_time tb_finish_time tb_start_time
  transfer-Ends conn fuel before s ct good (i, h) cat enough =
      let (tt', tat) = i.transfer_t in
      let w = (os.clock_gettime s.world).1 in
      let started : Conn World = record {
        session = record s.session {
          connect_t = some (tb_finish_time os ct s.world).0;
          status = session_connected;
          transfer_t = some (tb_start_time os tt' w).0;
        };
        world = (os.clock_gettime w).1;
      } in
      let kept : Sending before 0 started = (
        record {
          contents = i.contents;
          data_size = i.data_size;
          total_bytes = i.total_bytes;
          within = i.within;
          pack_size = i.pack_size;
          sock_d = i.sock_d;
          transfer_t = ((tb_start_time os tt' w).0, refl);
        },
        law.reading_clock (pos fd) w ∙ law.reading_clock (pos fd) s.world ∙ h,
      ) in
      subst₂
        (λ o p. Ends (IsFinished conn before) Exits (
          (finish_time os o put_connect
              >> (set_session os (λ c. record c { status = session_connected })
                  >> (start_time os p put_transfer
                      >> (connection_loop os f_send fuel s.pack_size >>= close_transfer))))
            s))
        (sym cat) (sym tat)
        (Ends-bind (Ended before) (IsFinished conn before) Exits
          (connection_loop os f_send fuel s.pack_size) close_transfer started
          (connection_loop-Ends bytes b fd small os f_send sent law buffer fuel before 0 started
            s.pack_size kept (inl i.pack_size) (omega arith))
          (λ rc t e. close_transfer-Ends conn before rc t good e))

  -- What any two such calls come to.
  pub connection_by-IsFinished :
      (f_connect : Callee) (fuel : ℕ) (s : Conn World) (ct : TbTime) (info : AddrInfo)
      → IsMidway bytes b fd 0 s.session
      → s.connect_t ≡ some ct
      → s.addr_info ≡ some info
      → length bytes < fuel
      → Ends
          (IsFinished
            (os.connect f_connect (pos fd) info (os.clock_gettime s.world).1)
            (sent (pos fd) s.world))
          (λ _. ⊥)
          (connection_by os f_connect f_send fuel s)
  unfolding connection_by connect_session start_time tb_start_time
  connection_by-IsFinished f_connect fuel s ct info i cat addr enough =
      let before = sent (pos fd) s.world in
      let w = (os.clock_gettime s.world).1 in
      let r = os.connect f_connect s.sock_d info w in
      let conn = os.connect f_connect (pos fd) info w in
      let same : r ≡ conn = ap (λ d. os.connect f_connect d info w) i.sock_d in
      let opened : Conn World = record {
        session = record s.session { connect_t = some (tb_start_time os ct s.world).0 };
        world = r.1;
      } in
      let none_sent : sent (pos fd) r.1 ≡ before ++ take 0 bytes =
        law.connecting f_connect (pos fd) s.sock_d info w
        ∙ law.reading_clock (pos fd) s.world
        ∙ sym (append-nil before) in
      subst₂
        (λ o a. Ends (IsFinished conn before) Exits (
          (start_time os o put_connect
              >> (connect_session os f_connect a >>= λ rc.
                  if rc ==ℤ minus_one then pure minus_one else transfer os f_send fuel))
            s))
        (sym cat) (sym addr)
        (elim (Bool-cases (r.0 ==ℤ minus_one)) [
          | inl bad ↦ rw bad (
              inr (
                refl,
                (
                  0,
                  omega arith,
                  i.total_bytes,
                  none_sent,
                  inl (ap (λ c. c.0 ==ℤ minus_one) (sym same) ∙ bad, refl, ap (λ c. c.1) same),
                ),
              ))
          | inr good ↦ rw good (
              transfer-Ends conn fuel before opened (tb_start_time os ct s.world).0
                (ap (λ c. c.0 ==ℤ minus_one) (sym same) ∙ good)
                (
                  record {
                    contents = i.contents;
                    data_size = i.data_size;
                    total_bytes = i.total_bytes;
                    within = i.within;
                    pack_size = i.pack_size;
                    sock_d = i.sock_d;
                    transfer_t = i.transfer_t;
                  },
                  none_sent,
                )
                refl enough)
        ])

module _ (bytes : List ℕ) (b fd : ℕ) (small : length bytes < 2 ^ 31) {World : Type 0}
    (os : Os World) (sent : ℤ → World → List ℕ) (law : SendsBytes os send sent)
    (buffer : 0 < b) where
  -- A connection whose session has an address, its timers, a send size of at least one byte and data
  -- of less than 2 ^ 31 bytes, none of them sent yet, returns, and does so as `IsFinished` says:
  -- with 0 and all its data sent in order, or with -1 and a part of it from the start, when the
  -- connect has answered -1, or the send of what follows that part has. It reads through no null pointer and not beyond its data, and one more round than
  -- there are bytes is enough.
  pub tb_stream_connection-IsFinished :
      (fuel : ℕ) (s : Conn World) (ct : TbTime) (info : AddrInfo)
      → IsMidway bytes b fd 0 s.session
      → s.connect_t ≡ some ct
      → s.addr_info ≡ some info
      → length bytes < fuel
      → Ends
          (IsFinished bytes b fd small os send sent law buffer
            (os.connect connect (pos fd) info (os.clock_gettime s.world).1)
            (sent (pos fd) s.world))
          (λ _. ⊥)
          (tb_stream_connection os fuel s)
  unfolding tb_stream_connection
  tb_stream_connection-IsFinished fuel s ct info i cat addr enough =
      connection_by-IsFinished bytes b fd small os send sent law buffer connect fuel s ct info i cat
        addr enough
