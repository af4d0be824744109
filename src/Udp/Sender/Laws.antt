-- ===== src/Udp/Sender/Laws.antt =====
-- What the loop of tb_udp_m_client_conn of src/tb_udp.c sends.
use Prim.Native.Nat.{min}
use mathlib.Core.Path.{subst, subst₂}
use mathlib.Core.List.{append_assoc}
use fastuserprotocol.Common.{
  ℕ, zero, suc, ◌+◌, ◌-◌, ◌%◌, ◌^◌, ◌<◌, ◌≤◌, ◌≡◌, refl, sym, ap, ◌∙◌, ◌⊎◌, inl, inr, false, Option,
  none, some, List, [], ◌∷◌, ◌++◌, arith, if◌then◌else◌, length, take, drop, length-drop,
  length-take, ltb, lt→ltb, Bool-cases,
}
use fastuserprotocol.Common.Int.{
  ℤ, pos, minus_one, ◌+ℤ◌, ◌==ℤ◌, to_u64, to_u64-id, pos-add, pos-ne_minus_one,
}
use fastuserprotocol.Os.{Os, Ends, ◌>>=◌, ◌>>◌, pure, ok}
use fastuserprotocol.Timer.{TbTime}
use fastuserprotocol.Session.{TbSession}
use fastuserprotocol.Listener.Net.{offset}
use fastuserprotocol.Stream.Connection.{Conn, slice_from, has_more, count_sent}
use fastuserprotocol.Udp.{Messages, Piece, message_size}
use fastuserprotocol.Udp.Contract.{PostsMessages}
use fastuserprotocol.Udp.Sender.{
  piece_length, with_header, message_of, message_at, post, sender_loop,
}

-- A session with `t` bytes counted, of `n` that are its share of the data, in packets of `p`.
pub record IsPosting (bytes : List ℕ) (n p : ℕ) (fd id : ℤ) (t : ℕ) (c : TbSession) : Type 0 where
  pub contents : c.contents ≡ bytes
  pub data_size : c.data_size ≡ n
  pub total_bytes : c.total_bytes ≡ pos t
  pub pack_size : c.pack_size ≡ pos p
  pub sock_d : c.sock_d ≡ fd
  pub its_id : c.id ≡ id
  pub transfer_t : (k : TbTime) × (c.transfer_t ≡ some k)

module _ (bytes : List ℕ) (n p : ℕ) (fd id : ℤ) where
  -- The message that is sent with `t` bytes counted, of the bytes from `o` on.
  abbrev pub message : ℕ → ℕ → List Piece
  message t o = with_header id (min p (n - t)) (take (min p (n - t)) (drop o bytes))

  -- The messages after the first one. Each has the bytes behind a packet and a header.
  abbrev pub later : ℕ → ℕ → List (List Piece)
  later zero t = []
  later (suc r) t = if ltb t n then message t (p + 8) ∷ later r (t + (8 + min p (n - t))) else []

  none_later : (r t : ℕ) → n ≤ t → later r t ≡ []
  none_later zero t le = refl
  none_later (suc r) t le =
      let off : ltb t n ≡ false = ground arith in
      ap (λ b. if b then message t (p + 8) ∷ later r (t + (8 + min p (n - t))) else []) off

  -- As many rounds as bytes are left are enough.
  later-enough : (r q t : ℕ) → n - t ≤ r → n - t ≤ q → later r t ≡ later q t
  later-enough zero q t le lq = sym (none_later q t (omega arith))
  later-enough (suc r) zero t le lq = none_later (suc r) t (omega arith)
  later-enough (suc r) (suc q) t le lq =
      let m = message t (p + 8) in
      let k = 8 + min p (n - t) in
      ap (λ l. if ltb t n then m ∷ l else []) (later-enough r q (t + k) (omega arith) (omega arith))

  module _ (share : n ≤ length bytes) (small : n < 2 ^ 31) (packet : p < 2 ^ 31) where
    piece_length_lem :
        (t : ℕ) (c : TbSession)
        → IsPosting bytes n p fd id t c
        → t ≤ n
        → piece_length c ≡ min p (n - t)
    piece_length_lem t c i le =
        let word : to_u64 c.total_bytes ≡ t = ap to_u64 i.total_bytes ∙ to_u64-id t (omega arith) in
        let size : to_u64 c.pack_size ≡ p = ap to_u64 i.pack_size ∙ to_u64-id p (omega arith) in
        let rest : (c.data_size + 2 ^ 64 - to_u64 c.total_bytes) % 2 ^ 64 ≡ n - t =
          omega (arith, word, i.data_size) in
        subst₂ (λ x y. (if ltb x y then x else y) ≡ min p (n - t)) (sym rest) (sym size)
          (ground arith)

    slice_there :
        (o m : ℕ)
        → o + m ≤ length bytes
        → slice_from (offset bytes (pos o)) (pos m) ≡ some (take m (drop o bytes))
    slice_there o m fits = ground (arith, length-drop o bytes)

    message_at_lem :
        (t o : ℕ) (c : TbSession)
        → IsPosting bytes n p fd id t c
        → t ≤ n
        → o + min p (n - t) ≤ length bytes
        → message_at c (pos o) ≡ some (message t o)
    message_at_lem t o c i le fits =
        let m = min p (n - t) in
        ap (λ l. message_of c.id l (slice_from (offset c.contents (pos o)) (pos l)))
          (piece_length_lem t c i le)
        ∙ ap (λ x. message_of c.id m (slice_from (offset x (pos o)) (pos m))) i.contents
        ∙ ap (λ k. message_of k m (slice_from (offset bytes (pos o)) (pos m))) i.its_id
        ∙ ap (message_of id m) (slice_there o m fits)

    has_more_lem :
        (t : ℕ) (c : TbSession) → IsPosting bytes n p fd id t c → t < 2 ^ 33 → has_more c ≡ ltb t n
    has_more_lem t c i lt =
        subst₂ (λ x y. ltb (to_u64 x) y ≡ ltb t n) (sym i.total_bytes) (sym i.data_size)
          (ap (λ k. ltb k n) (to_u64-id t (omega arith)))

    counted_session :
        (t k : ℕ) (c : TbSession)
        → IsPosting bytes n p fd id t c
        → IsPosting bytes n p fd id (t + k) (record c { total_bytes = c.total_bytes +ℤ pos k })
    counted_session t k c i = record {
      contents = i.contents;
      data_size = i.data_size;
      total_bytes = ap (λ x. x +ℤ pos k) i.total_bytes ∙ pos-add t k;
      pack_size = i.pack_size;
      sock_d = i.sock_d;
      its_id = i.its_id;
      transfer_t = i.transfer_t;
    }

    message_size_lem :
        (t o : ℕ)
        → o + min p (n - t) ≤ length bytes
        → message_size (message t o) ≡ 8 + min p (n - t)
    message_size_lem t o fits =
        omega (arith, length-take (min p (n - t)) (drop o bytes), length-drop o bytes)

    module _ {World : Type 0} (os : Os World) (msgs : Messages World)
        (posted : ℤ → World → List (List Piece)) (law : PostsMessages os msgs posted) where
      -- So many bytes are counted, and these messages are sent.
      abbrev pub Posted : ℕ → List (List Piece) → Conn World → Type 0
      Posted t ms s = IsPosting bytes n p fd id t s.session × (posted fd s.world ≡ ms)

      -- The loop ends with a message sent last and everything counted, or it has failed.
      abbrev pub LoopDone : List (List Piece) → Option (List Piece) → Conn World → Type 0
      LoopDone ms r s =
          (r ≡ none) ⊎ ((m : List Piece) × (k : ℕ) × (r ≡ some m) × (n ≤ k) × Posted k ms s)

      abbrev after : ℕ → World → Conn World → Conn World
      after k w s = record s {
        session = record s.session { total_bytes = s.session.total_bytes +ℤ pos k };
        world = w;
      }

      -- One round from the bytes at `o` on, and then what the loop does if there is more.
      round-Ends :
          (fuel : ℕ) (t o : ℕ) (ms ms' : List (List Piece)) (s : Conn World)
          → Posted t ms s
          → t ≤ n
          → o + min p (n - t) ≤ length bytes
          → ((u : Conn World)
              → Posted (t + (8 + min p (n - t))) (ms ++ message t o ∷ []) u
              → t + (8 + min p (n - t)) < n
              → Ends (LoopDone ms') (λ _. ⊥) (sender_loop os msgs fuel (pos (8 + min p (n - t))) u))
          → (n ≤ t + (8 + min p (n - t)) → ms' ≡ ms ++ message t o ∷ [])
          → Ends (LoopDone ms') (λ _. ⊥) (sender_loop os msgs (suc fuel) (pos o) s)
      unfolding sender_loop post
      round-Ends fuel t o ms ms' s (i, h) le fits again over =
          let m = message t o in
          let k = 8 + min p (n - t) in
          let w = (msgs.sendmsg s.sock_d m s.world).1 in
          let u = after k w s in
          let next = λ (o : Option (List Piece)) (rc : ℤ).
            if rc ==ℤ minus_one
            then pure none
            else count_sent os rc
              >> (λ v. if has_more v.session then sender_loop os msgs fuel rc v else ok o v) in
          subst (λ x. Ends (LoopDone ms') (λ _. ⊥) ((post os msgs x >>= next x) s))
            (sym (message_at_lem t o s.session i le fits))
            (elim (law.posts s.sock_d m s.world) [
              | inl (e, same) ↦ rw e (inl refl)
              | inr (e, got) ↦
                  let sent : (msgs.sendmsg s.sock_d m s.world).0 ≡ pos k =
                    e ∙ ap pos (message_size_lem t o fits) in
                  let h' : posted fd w ≡ ms ++ m ∷ [] =
                    subst (λ d. posted d w ≡ posted d s.world ++ m ∷ []) i.sock_d got
                    ∙ ap (λ l. l ++ m ∷ []) h in
                  let i' = counted_session t k s.session i in
                  rw (sent, pos-ne_minus_one k)
                    (subst
                      (λ b.
                        Ends (LoopDone ms') (λ _. ⊥)
                          (if b then sender_loop os msgs fuel (pos k) u else ok (some m) u))
                      (sym (has_more_lem (t + k) u.session i' (omega arith)))
                      (elim (Bool-cases (ltb (t + k) n)) [
                        | inl more ↦ rw more (again u (i', h') (ground arith))
                        | inr done ↦
                            let all : n ≤ t + k = ground arith in
                            rw done (inr (m, t + k, refl, all, (i', h' ∙ sym (over all))))
                      ]))
            ])

      -- Behind the first round each message starts behind a packet and a header.
      later-Ends :
          (fuel t : ℕ) (ms : List (List Piece)) (s : Conn World)
          → Posted t ms s
          → t < n
          → p + 8 ≤ t
          → n - t < fuel
          → Ends (LoopDone (ms ++ later fuel t)) (λ _. ⊥) (sender_loop os msgs fuel (pos (p + 8)) s)
      later-Ends zero t ms s h more ahead lt = absurd (omega arith)
      later-Ends (suc fuel) t ms s h more ahead lt =
          let k = 8 + min p (n - t) in
          let it = message t (p + 8) in
          let here : later (suc fuel) t ≡ it ∷ later fuel (t + k) =
            ap (λ b. if b then it ∷ later fuel (t + k) else []) (lt→ltb t n more) in
          subst
            (λ l.
              Ends (LoopDone (ms ++ l)) (λ _. ⊥) (sender_loop os msgs (suc fuel) (pos (p + 8)) s))
            (sym here)
            (round-Ends fuel t (p + 8) ms (ms ++ it ∷ later fuel (t + k)) s h (omega arith)
              (omega arith)
              (λ u g less.
                let full : p + 8 ≡ k = omega arith in
                subst₂ (λ l o. Ends (LoopDone l) (λ _. ⊥) (sender_loop os msgs fuel (pos o) u))
                  (append_assoc ms (it ∷ []) (later fuel (t + k))) full
                  (later-Ends fuel (t + k) (ms ++ it ∷ []) u g less (omega arith) (omega arith)))
              (λ all. ap (λ l. ms ++ it ∷ l) (none_later fuel (t + k) all)))

      pub sender_loop-Ends :
          (fuel : ℕ) (ms : List (List Piece)) (s : Conn World)
          → Posted 0 ms s
          → n < fuel
          → Ends
              (LoopDone (ms ++ message 0 0 ∷ later n (8 + min p n)))
              (λ _. ⊥)
              (sender_loop os msgs fuel (pos 0) s)
      sender_loop-Ends zero ms s h lt = absurd (omega arith)
      sender_loop-Ends (suc fuel) ms s h lt =
          let k = 8 + min p (n - 0) in
          let it = message 0 0 in
          let start : 0 + k ≡ 8 + min p n = omega arith in
          subst
            (λ t.
              Ends (LoopDone (ms ++ it ∷ later n t)) (λ _. ⊥)
                (sender_loop os msgs (suc fuel) (pos 0) s))
            start
            (round-Ends fuel 0 0 ms (ms ++ it ∷ later n (0 + k)) s h (omega arith) (omega arith)
              (λ u g less.
                let full : p + 8 ≡ k = omega arith in
                subst₂ (λ l o. Ends (LoopDone l) (λ _. ⊥) (sender_loop os msgs fuel (pos o) u))
                  (append_assoc ms (it ∷ []) (later fuel (0 + k))
                    ∙ ap (λ l. ms ++ it ∷ l)
                        (later-enough fuel n (0 + k) (omega arith) (omega arith)))
                  full
                  (later-Ends fuel (0 + k) (ms ++ it ∷ []) u g less (omega arith) (omega arith)))
              (λ all. ap (λ l. ms ++ it ∷ l) (none_later n (0 + k) all)))
