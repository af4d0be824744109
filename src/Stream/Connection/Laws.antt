-- ===== src/Stream/Connection/Laws.antt =====
-- What a connection of a client sends, tb_stream_connection of src/tb_stream.c.
use Prim.Native.Nat.{min}
use mathlib.Core.Path.{subst, subst₂}
use fastuserprotocol.Common.{
  ℕ, zero, suc, ◌+◌, ◌-◌, ◌%◌, ◌^◌, ◌<◌, ◌≤◌, ◌≡◌, refl, sym, ap, ◌∙◌, ◌⊎◌, inl, inr, some, List,
  ◌++◌, arith, if◌then◌else◌, length, take, drop, length-drop, length-take, append-next, ltb,
  Bool-cases,
}
use fastuserprotocol.Common.Int.{
  ℤ, pos, minus_one, ◌+ℤ◌, ◌==ℤ◌, to_int, to_u64, to_int-id_pos, to_u64-id, pos-add,
  pos-ne_minus_one,
}
use fastuserprotocol.Protocol.{Callee}
use fastuserprotocol.Os.{Os, Ends, ◌>>=◌, ◌>>◌, pure}
use fastuserprotocol.Os.Contract.{SendsBytes}
use fastuserprotocol.Timer.{TbTime}
use fastuserprotocol.Session.{TbSession}
use fastuserprotocol.Listener.Net.{offset}
use fastuserprotocol.Stream.Client.Round.{SizeFits, size_kept}
use fastuserprotocol.Stream.Connection.{
  Conn, slice, slice_from, has_more, send_size, send_slice, count_sent, connection_loop,
}

-- A session with `k` of its bytes sent, `b` at a time, and a timer for the transfer.
pub record IsMidway (bytes : List ℕ) (b fd k : ℕ) (c : TbSession) : Type 0 where
  pub contents : c.contents ≡ bytes
  pub data_size : c.data_size ≡ length bytes
  pub total_bytes : c.total_bytes ≡ pos k
  pub within : k ≤ length bytes
  pub pack_size : c.pack_size ≡ pos b
  pub sock_d : c.sock_d ≡ pos fd
  pub transfer_t : (t : TbTime) × (c.transfer_t ≡ some t)

module _ (bytes : List ℕ) (b fd : ℕ) (small : length bytes < 2 ^ 31) where
  send_size_lem :
      (k : ℕ) (c : TbSession) (sz : ℤ)
      → IsMidway bytes b fd k c
      → SizeFits bytes b k sz
      → send_size c sz ≡ pos (min b (length bytes - k))
  send_size_lem k c sz i f =
      let word : to_u64 c.total_bytes ≡ k =
        ap to_u64 i.total_bytes ∙ to_u64-id k (omega (arith, i.within)) in
      let rest : to_int (pos ((c.data_size + 2 ^ 64 - to_u64 c.total_bytes) % 2 ^ 64))
          ≡ pos (length bytes - k) =
        ap to_int (ap pos (omega (arith, word, i.data_size, i.within)))
        ∙ to_int-id_pos (length bytes - k) (omega arith) in
      ground (arith, rest, i.pack_size)

  has_more_lem :
      (k : ℕ) (c : TbSession) → IsMidway bytes b fd k c → has_more c ≡ ltb k (length bytes)
  has_more_lem k c i =
      subst₂ (λ x y. ltb (to_u64 x) y ≡ ltb k (length bytes)) (sym i.total_bytes) (sym i.data_size)
        (ap (λ n. ltb n (length bytes)) (to_u64-id k (omega (arith, i.within))))

  slice_lem :
      (k m : ℕ) (c : TbSession)
      → IsMidway bytes b fd k c
      → m ≤ length bytes - k
      → slice c (pos m) ≡ some (take m (drop k bytes))
  slice_lem k m c i le =
      subst₂ (λ x y. slice_from (offset x y) (pos m) ≡ some (take m (drop k bytes)))
        (sym i.contents) (sym i.total_bytes) (ground (arith, i.within, length-drop k bytes))

  counted_session :
      (k j : ℕ) (rc : ℤ) (c : TbSession)
      → rc ≡ pos j
      → j ≤ length bytes - k
      → IsMidway bytes b fd k c
      → IsMidway bytes b fd (k + j) (record c { total_bytes = c.total_bytes +ℤ rc })
  counted_session k j rc c e le i = record {
    contents = i.contents;
    data_size = i.data_size;
    total_bytes = subst₂ (λ x y. x +ℤ y ≡ pos (k + j)) (sym i.total_bytes) (sym e) (pos-add k j);
    within = omega (arith, i.within);
    pack_size = i.pack_size;
    sock_d = i.sock_d;
    transfer_t = i.transfer_t;
  }

  module _ {World : Type 0} (os : Os World) (f_send : Callee) (sent : ℤ → World → List ℕ)
      (law : SendsBytes os f_send sent) (buffer : 0 < b) where
    abbrev pub SentSoFar : List ℕ → ℕ → Conn World → Type 0
    SentSoFar before k s =
        IsMidway bytes b fd k s.session × (sent (pos fd) s.world ≡ before ++ take k bytes)

    -- The last call was a send of the bytes from `k` on, which are not none, and answered -1.
    abbrev pub SendFailed : ℕ → Conn World → Type 0
    SendFailed k s =
        (k < length bytes)
        × ((w : World) × ((os.send f_send (pos fd) (take (min b (length bytes - k)) (drop k bytes))
                w).0
              ≡ minus_one)
            × (s.world
                ≡ (os.send f_send (pos fd) (take (min b (length bytes - k)) (drop k bytes)) w).1))

    -- All is sent, or a send has failed and the bytes before it are sent.
    abbrev pub LoopDone : List ℕ → ℤ → Conn World → Type 0
    LoopDone before rc s =
        ((rc ≡ pos 0) × SentSoFar before (length bytes) s)
        ⊎ ((rc ≡ minus_one) × ((k : ℕ) × SentSoFar before k s × SendFailed k s))

    abbrev pub Never : Conn World → Type 0
    Never s = ⊥

    all_sent :
        (before : List ℕ) (k : ℕ) (s : Conn World)
        → SentSoFar before k s
        → length bytes ≤ k
        → SentSoFar before (length bytes) s
    all_sent before k s (i, h) le =
        let e : k ≡ length bytes = omega (arith, i.within) in
        subst (λ n. SentSoFar before n s) e (i, h)

    abbrev after : ℕ → World → Conn World → Conn World
    after j w s = record {
      session = record s.session { total_bytes = s.session.total_bytes +ℤ pos j };
      world = w;
    }

    fuel_left :
        (fuel k j m : ℕ)
        → m ≡ min b (length bytes - k)
        → 0 < j
        → length bytes - k < suc fuel
        → k < length bytes
        → length bytes - (k + j) < fuel
    fuel_left fuel k j m e lt enough more = omega arith

    -- What the socket of the session has taken, read at its number.
    at_fd :
        {k : ℕ} {w v : World} (f : List ℕ → List ℕ) (c : TbSession)
        → IsMidway bytes b fd k c
        → sent c.sock_d w ≡ f (sent c.sock_d v)
        → sent (pos fd) w ≡ f (sent (pos fd) v)
    at_fd {k} {w} {v} f c i e = subst (λ d. sent d w ≡ f (sent d v)) i.sock_d e

    pub connection_loop-Ends :
        (fuel : ℕ) (before : List ℕ) (k : ℕ) (s : Conn World) (sz : ℤ)
        → SentSoFar before k s
        → SizeFits bytes b k sz
        → length bytes - k < fuel
        → Ends (LoopDone before) Never (connection_loop os f_send fuel sz s)
    unfolding connection_loop send_slice
    connection_loop-Ends zero before k s sz h f lt = absurd (omega arith)
    connection_loop-Ends (suc fuel) before k s sz (i, h) f lt =
        let m = min b (length bytes - k) in
        let rest = λ (rc : ℤ).
          if rc ==ℤ minus_one
          then pure minus_one
          else count_sent os rc >> connection_loop os f_send fuel (pos m) in
        subst₂
          (λ t z. Ends (LoopDone before) Never (
            (if t
                then send_slice os f_send (slice s.session z) >>= (λ rc.
                  if rc ==ℤ minus_one
                  then pure minus_one
                  else count_sent os rc >> connection_loop os f_send fuel z)
                else pure (pos 0))
              s))
          (sym (has_more_lem k s.session i)) (sym (send_size_lem k s.session sz i f))
          (elim (Bool-cases (ltb k (length bytes))) [
            | inl more ↦
                let is_more : k < length bytes = ground arith in
                rw more (
                  subst (λ o. Ends (LoopDone before) Never ((send_slice os f_send o >>= rest) s))
                    (sym (slice_lem k m s.session i (omega arith)))
                    (elim (law.takes s.sock_d (take m (drop k bytes)) s.world) [
                      | inl (e, same) ↦ rw e (
                          inr (
                            refl,
                            (
                              k,
                              (i, at_fd (λ xs. xs) s.session i same ∙ h),
                              (
                                is_more,
                                (
                                  s.world,
                                  ap (λ d. (os.send f_send d (take m (drop k bytes)) s.world).0)
                                        (sym i.sock_d)
                                      ∙ e,
                                  ap (λ d. (os.send f_send d (take m (drop k bytes)) s.world).1)
                                      i.sock_d,
                                ),
                              ),
                            ),
                          ))
                      | inr (j, e, le, some_taken, got) ↦
                          rw (e, pos-ne_minus_one j)
                            (connection_loop-Ends fuel before (k + j)
                              (after j (os.send f_send s.sock_d (take m (drop k bytes)) s.world).1
                                s)
                              (pos m)
                              (
                                counted_session k j (pos j) s.session refl
                                    (omega
                                      (arith, length-take m (drop k bytes), length-drop k bytes))
                                    i,
                                at_fd (λ xs. xs ++ take j (take m (drop k bytes))) s.session i got
                                    ∙ ap (λ xs. xs ++ take j (take m (drop k bytes))) h
                                    ∙ append-next before bytes k j m
                                        (omega (arith, length-take m (drop k bytes))),
                              )
                              (size_kept bytes b k j)
                              (fuel_left fuel k j m refl
                                (some_taken (
                                  omega (arith, length-take m (drop k bytes), length-drop k bytes)))
                                lt is_more))
                    ]))
            | inr done ↦ rw done (inl (refl, all_sent before k s (i, h) (ground arith)))
          ])
