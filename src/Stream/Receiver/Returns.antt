-- ===== src/Stream/Receiver/Returns.antt =====
-- How the thread of a connection of a server ends: tb_stream_m_server_conn of src/tb_stream.c, and the
-- thread with the same steps of src/tb_udt.c.
use mathlib.Core.Path.{subst}
use fastuserprotocol.Common.{
  ℕ, zero, suc, ◌+◌, ◌<◌, ◌≡◌, refl, sym, ap, ◌∙◌, ◌⊎◌, inl, inr, true, false, some, List, arith,
  if◌then◌else◌, Bool, Bool-cases,
}
use fastuserprotocol.Common.Int.{
  ℤ, pos, minus_one, ◌+ℤ◌, ◌-ℤ◌, ◌==ℤ◌, +ℤ_assoc, +ℤ-id_right, pos-add, pos-ne_minus_one, to_u64,
}
use fastuserprotocol.Protocol.{Callee}
use fastuserprotocol.Os.{Os, Run, ok, exited, halted, fault, out_of_fuel, Ends, Ends-mono}
use fastuserprotocol.Os.Contract.{ReceivesBytes}
use fastuserprotocol.Timer.{TbTime, tb_start_time}
use fastuserprotocol.Session.{session_disconnected, session_connected}
use fastuserprotocol.Listener.{tb_exit}
use fastuserprotocol.Stream.Receiver.{
  Door, hang_up, server_conn, received, receive_loop, finish_transfer, after_loop, start_transfer,
}

module _ {World : Type 0} (os : Os World) (f_recv f_close : Callee) (is_end : World → Bool)
    (left : ℤ → World → ℕ) (law : ReceivesBytes os f_recv left) where
  abbrev coming : Door World → ℕ
  coming s = left s.session.sock_d s.world

  -- A receive in the world `v`, with the socket and the buffer of the session.
  abbrev pub receive_at : Door World → World → ℤ × List ℕ × World
  receive_at s v = os.recv f_recv s.session.sock_d (to_u64 s.session.pack_size) v

  -- The last receive: it answers 0, since nothing is left, or -1, as the connection has ended.
  abbrev pub IsLast : Door World → World → Type 0
  IsLast s v =
      (((receive_at s v).0 ≡ pos 0) × (left s.session.sock_d v ≡ 0))
      ⊎ (((receive_at s v).0 ≡ minus_one) × (is_end (receive_at s v).2 ≡ true))

  -- The last receive answers -1, and the connection has not ended.
  abbrev pub HasFailed : Door World → World → Type 0
  HasFailed s v = ((receive_at s v).0 ≡ minus_one) × (is_end (receive_at s v).2 ≡ false)

  -- The session with what was received counted.
  abbrev after : ℕ → Door World → List ℕ → World → Door World
  after k s bytes w = record s { session = received s.session (pos k) bytes; world = w }

  fewer : (k m n fuel : ℕ) → (pos k ==ℤ pos 0) ≡ false → k + m ≡ n → n < suc fuel → m < fuel
  fewer k m n fuel more sum lt = let some_got : 0 < k = ground arith in omega arith

  -- `n` bytes have been counted before the last receive, in the world `v`.
  abbrev pub Counts : Door World → ℕ → World → Door World → Type 0
  Counts s n v t =
      (n + left s.session.sock_d v ≡ left s.session.sock_d s.world)
      × (t.session.total_bytes ≡ s.session.total_bytes +ℤ pos n)

  -- How the loop ends.
  abbrev Ending : Door World → ℤ → Door World → Type 0
  Ending s rc t =
      (n : ℕ) × (v : World) × Counts s n v t
      × (((rc ≡ pos 0) × IsLast s v × (t.session.transfer_t ≡ s.session.transfer_t))
          ⊎ ((rc ≡ minus_one) × HasFailed s v × (t.session.status ≡ session_disconnected)))

  -- The list and the command are untouched.
  abbrev LoopDone : Door World → ℤ → Door World → Type 0
  LoopDone s rc t = (t.list ≡ s.list) × (t.command ≡ s.command) × Ending s rc t

  nothing_more : (z : ℤ) → z ≡ z +ℤ pos 0
  nothing_more z = sym (+ℤ-id_right z)

  counted :
      (k : ℕ) (s : Door World) (bytes : List ℕ) (w : World) (rc : ℤ) (u : Door World)
      → k + left s.session.sock_d w ≡ coming s
      → Ending (after k s bytes w) rc u
      → Ending s rc u
  counted k s bytes w rc u sum (n, v, (here, total), ending) = (
    k + n,
    v,
    (
      omega (arith, here, sum),
      total
          ∙ +ℤ_assoc s.session.total_bytes (pos k) (pos n)
          ∙ ap (λ m. s.session.total_bytes +ℤ m) (pos-add k n),
    ),
    ending,
  )

  zero_left :
      (k : ℕ) (s : Door World) (bytes : List ℕ) (w : World)
      → (receive_at s s.world).0 ≡ pos k
      → (pos k ==ℤ pos 0) ≡ true
      → (k ≡ 0 → coming s ≡ 0)
      → Ending s (pos 0) (after k s bytes w)
  zero_left k s bytes w e last end =
      let zero : k ≡ 0 = ground arith in
      (
        0,
        s.world,
        (omega arith, ap (λ n. s.session.total_bytes +ℤ pos n) zero),
        inl (refl, inl (e ∙ ap pos zero, end zero), refl),
      )

  receive_loop-Ends :
      (fuel : ℕ) (s : Door World)
      → 0 < to_u64 s.session.pack_size
      → coming s < fuel
      → Ends (LoopDone s) (λ _. ⊥) (receive_loop os f_recv f_close is_end fuel s)
  unfolding receive_loop
  receive_loop-Ends zero s room lt = absurd (omega arith)
  receive_loop-Ends (suc fuel) s room lt =
      let r = receive_at s s.world in
      let none_counted = nothing_more s.session.total_bytes in
      elim (law.answers s.session.sock_d (to_u64 s.session.pack_size) s.world room) [
        | inl e ↦ elim (Bool-cases (is_end r.2)) [
          | inl over ↦
              let ending : Ending s (pos 0) (record s { world = r.2 }) =
                (0, s.world, (omega arith, none_counted), inl (refl, inr (e, over), refl)) in
              rw (e, over) (refl, refl, ending)
          | inr other ↦
              let ending : Ending s minus_one
                  (hang_up os f_recv f_close is_end (record s { world = r.2 })) =
                (0, s.world, (omega arith, none_counted), inr (refl, (e, other), refl)) in
              rw (e, other) (refl, refl, ending)
        ]
        | inr (k, e, sum, end) ↦ elim (Bool-cases (pos k ==ℤ pos 0)) [
          | inl last ↦
              let ending = zero_left k s r.1 r.2 e last end in
              rw (e, pos-ne_minus_one k, last) (refl, refl, ending)
          | inr more ↦
              rw (e, pos-ne_minus_one k, more)
                (Ends-mono (LoopDone (after k s r.1 r.2)) (LoopDone s) (λ _. ⊥)
                  (receive_loop os f_recv f_close is_end fuel (after k s r.1 r.2))
                  (receive_loop-Ends fuel (after k s r.1 r.2) room
                    (fewer k (left s.session.sock_d r.2) (coming s) fuel more sum lt))
                  (λ rc u g. (g.0, g.1, counted k s r.1 r.2 rc u sum g.2)))
        ]
      ]

  -- The door as the loop finds it.
  abbrev opened : Door World → TbTime → Door World
  opened s k = record s {
    session = record s.session {
      status = session_connected;
      transfer_t = some (tb_start_time os k s.world).0;
    };
    world = (os.clock_gettime s.world).1;
  }

  -- What a thread has counted when it ends, and how its last receive and its return value go
  -- together: with 0 one connection less is active, and if none is left the server is told to exit;
  -- with -1 the connection still counts as active, and the server is told nothing.
  abbrev pub Returns : Door World → ℤ → Door World → Type 0
  Returns s rc t =
      (t.session.status ≡ session_disconnected)
      × ((n : ℕ) × (v : World) × Counts s n v t
          × (((rc ≡ pos 0)
                × IsLast s v
                × (t.list.num_active_conn ≡ s.list.num_active_conn -ℤ pos 1)
                × (t.command
                    ≡ (if s.list.num_active_conn -ℤ pos 1 ==ℤ pos 0 then tb_exit else s.command)))
              ⊎ ((rc ≡ minus_one)
                  × HasFailed s v
                  × (t.list.num_active_conn ≡ s.list.num_active_conn)
                  × (t.command ≡ s.command))))

  after_loop-Returns :
      (s : Door World) (k : TbTime) (r : Run (Door World) ℤ)
      → Ends (LoopDone (opened s k)) (λ _. ⊥) r
      → Ends (Returns s) (λ _. ⊥) (after_loop os f_recv f_close is_end r)
  unfolding finish_transfer tb_start_time
  after_loop-Returns s k (ok rc t) (ls, cm, (n, v, (here, total), inl (e, last, timer))) = rw e (
      subst (λ o. Ends (Returns s) (λ _. ⊥) (finish_transfer os f_recv f_close is_end o t))
        (sym timer)
        (
          refl,
          (
            n,
            v,
            (here ∙ law.reading_clock s.session.sock_d s.world, total),
            inl (
              refl,
              last,
              ap (λ l. l.num_active_conn -ℤ pos 1) ls,
              ap (λ l. if l.num_active_conn -ℤ pos 1 ==ℤ pos 0 then tb_exit else t.command) ls
                  ∙ ap (λ c. if s.list.num_active_conn -ℤ pos 1 ==ℤ pos 0 then tb_exit else c) cm,
            ),
          ),
        ))
  after_loop-Returns s k (ok rc t) (ls, cm, (n, v, (here, total), inr (e, bad, over))) = rw e (
    over,
    (
      n,
      v,
      (here ∙ law.reading_clock s.session.sock_d s.world, total),
      inr (refl, bad, ap (λ l. l.num_active_conn) ls, cm),
    ),
  )
  after_loop-Returns s k (exited t) h = absurd h
  after_loop-Returns s k (halted t) h = absurd h
  after_loop-Returns s k fault h = absurd h
  after_loop-Returns s k out_of_fuel h = absurd h

  -- What any such calls come to.
  pub server_conn-Returns :
      (fuel : ℕ) (s : Door World) (k : TbTime)
      → s.session.transfer_t ≡ some k
      → 0 < to_u64 s.session.pack_size
      → left s.session.sock_d s.world < fuel
      → Ends (Returns s) (λ _. ⊥) (server_conn os f_recv f_close is_end fuel s)
  unfolding server_conn start_transfer tb_start_time
  server_conn-Returns fuel s k at room enough =
      subst
        (λ o.
          Ends (Returns s) (λ _. ⊥)
            (start_transfer os f_recv f_close is_end fuel o
              (record s { session = record s.session { status = session_connected } })))
        (sym at)
        (after_loop-Returns s k (receive_loop os f_recv f_close is_end fuel (opened s k)) (
          receive_loop-Ends fuel (opened s k) room
            (subst (λ n. n < fuel) (sym (law.reading_clock s.session.sock_d s.world)) enough)))
