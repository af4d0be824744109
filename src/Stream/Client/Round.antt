-- ===== src/Stream/Client/Round.antt =====
-- One round of tb_stream_client of src/tb_stream.c.
use Prim.Native.Nat.{min}
use mathlib.Core.Path.{subst, subst₂}
use fastuserprotocol.Common.{
  ℕ, ◌+◌, ◌-◌, ◌^◌, ◌<◌, ◌≤◌, ◌≡◌, refl, sym, ap, ◌∙◌, ◌⊎◌, some, List, ◌++◌, arith, length, take,
  drop, length-drop, length-take, append-next, ltb, Bool-cases, inl, inr,
}
use fastuserprotocol.Common.Int.{pos-add, ℤ, pos, ◌+ℤ◌, ◌-ℤ◌, to_int, to_int-id_pos}
use fastuserprotocol.Protocol.{send}
use fastuserprotocol.Os.{Os, Ends, Ends-mono}
use fastuserprotocol.Os.Contract.{SendsBytes}
use fastuserprotocol.Listener.{TbListener}
use fastuserprotocol.Listener.Net.{State, tb_send_data}
use fastuserprotocol.Listener.Net.Laws.{IsTcpClient, IsAborted, Sent, tb_send_data-Ends, same_calls}
use fastuserprotocol.Stream.Client.{rest_of, send_from, send_chunk, next_size}

-- A client with `k` bytes of its data sent, and a buffer of `b` bytes.
pub record IsSending (bytes : List ℕ) (b fd : ℕ) (k : ℕ) (l : TbListener) : Type 0 where
  pub tcp : IsTcpClient l
  pub contents : l.contents ≡ some bytes
  pub file_size : l.file_size ≡ pos (length bytes)
  pub total : l.total_tx_rx ≡ pos k
  pub within : k ≤ length bytes
  pub bufsize : l.bufsize ≡ pos b
  pub sock_d : l.sock_d ≡ pos fd

-- What `sz` holds between two rounds: the size of the buffer, unless less than that is left.
abbrev pub SizeFits : List ℕ → ℕ → ℕ → ℤ → Type 0
SizeFits bytes b k sz = (sz ≡ pos b) ⊎ (length bytes - k < b)

pos-sub : (a b : ℕ) → b ≤ a → pos a -ℤ pos b ≡ pos (a - b)
unfolding ◌-ℤ◌
pos-sub a b h = ground arith

module _ {World : Type 0} where
  -- So many bytes are sent, and the socket has taken exactly them, after those that it had.
  abbrev pub HasSent : (ℤ → World → List ℕ) → List ℕ → ℕ → ℕ → List ℕ → ℕ → State World → Type 0
  HasSent sent bytes b fd before k s =
      IsSending bytes b fd k s.listener × (sent (pos fd) s.world ≡ before ++ take k bytes)

  -- After one send, with its result still to be counted.
  abbrev pub Chunk : (ℤ → World → List ℕ) → List ℕ → ℕ → ℕ → List ℕ → ℕ → ℤ → State World → Type 0
  Chunk sent bytes b fd before k rc s =
      (j : ℕ) × (rc ≡ pos j)
      × (0 < j)
      × (j ≤ min b (length bytes - k))
      × IsSending bytes b fd k s.listener
      × (sent (pos fd) s.world ≡ before ++ take (k + j) bytes)

  abbrev pub with_count : ℤ → State World → State World
  with_count rc s = record s {
    listener = record s.listener { total_tx_rx = s.listener.total_tx_rx +ℤ rc };
  }

pub size_kept :
    (bytes : List ℕ) (b k j : ℕ) → SizeFits bytes b (k + j) (pos (min b (length bytes - k)))
size_kept bytes b k j = elim (Bool-cases (ltb (length bytes - k) b)) [
  | inl less ↦ inr (ground arith)
  | inr full ↦ inl (ap pos (ground arith))
]

module _ {World : Type 0} (os : Os World) where
  -- The next send takes what is left, or as much as the buffer holds.
  pub next_size-fits :
      (bytes : List ℕ) (b k : ℕ) (l : TbListener) (sz : ℤ)
      → l.file_size ≡ pos (length bytes)
      → l.total_tx_rx ≡ pos k
      → k ≤ length bytes
      → l.bufsize ≡ pos b
      → SizeFits bytes b k sz
      → length bytes < 2 ^ 31
      → next_size os l sz ≡ pos (min b (length bytes - k))
  next_size-fits bytes b k l sz size total within buf f small =
      let rest : to_int (l.file_size -ℤ l.total_tx_rx) ≡ pos (length bytes - k) =
        subst₂ (λ x y. to_int (x -ℤ y) ≡ pos (length bytes - k)) (sym size) (sym total)
          (ap to_int (pos-sub (length bytes) k within)
            ∙ to_int-id_pos (length bytes - k) (omega arith)) in
      ground (arith, rest, buf)

  pub next_size_lem :
      (bytes : List ℕ) (b fd k : ℕ) (l : TbListener) (sz : ℤ)
      → IsSending bytes b fd k l
      → SizeFits bytes b k sz
      → length bytes < 2 ^ 31
      → next_size os l sz ≡ pos (min b (length bytes - k))
  next_size_lem bytes b fd k l sz i f small =
      next_size-fits bytes b k l sz i.file_size i.total i.within i.bufsize f small

  module _ (sent : ℤ → World → List ℕ) (law : SendsBytes os send sent) (bytes : List ℕ) (b fd : ℕ)
      (buffer : 0 < b) (small : length bytes < 2 ^ 31) where
    pub send_chunk-Ends :
        (before : List ℕ) (k : ℕ) (s : State World)
        → HasSent sent bytes b fd before k s
        → k < length bytes
        → Ends
            (Chunk sent bytes b fd before k)
            (IsAborted os)
            (send_chunk os (pos (min b (length bytes - k))) s)
    unfolding send_chunk send_from
    send_chunk-Ends before k s (i, h) more =
        let m = min b (length bytes - k) in
        let rest : rest_of os s.contents s.total_tx_rx ≡ some (drop k bytes) =
          subst₂ (λ c t. rest_of os c t ≡ some (drop k bytes)) (sym i.contents) (sym i.total)
            (ground (arith, i.within)) in
        subst (λ r. Ends (Chunk sent bytes b fd before k) (IsAborted os) (send_from os r (pos m) s))
          (sym rest)
          (Ends-mono (Sent os sent s (take m (drop k bytes))) (Chunk sent bytes b fd before k)
            (IsAborted os) (tb_send_data os (drop k bytes) (pos m) s)
            (tb_send_data-Ends os sent s (drop k bytes) m law i.tcp (omega arith)
              (omega (arith, length-drop k bytes)))
            (λ rc s' g. counted rc s' m refl g))
      where
        counted :
            (rc : ℤ) (s' : State World) (m : ℕ)
            → m ≡ min b (length bytes - k)
            → Sent os sent s (take m (drop k bytes)) rc s'
            → Chunk sent bytes b fd before k rc s'
        counted rc s' m me (j, e, lt, le, same, got) = (
          j,
          e,
          lt,
          omega (arith, length-take m (drop k bytes)),
          subst (IsSending bytes b fd k) (sym same) i,
          subst (λ d. sent d s'.world ≡ sent d s.world ++ take j (take m (drop k bytes))) i.sock_d
                got
              ∙ ap (λ xs. xs ++ take j (take m (drop k bytes))) h
              ∙ append-next before bytes k j m (omega (arith, length-take m (drop k bytes))),
        )

    -- The round of the loop with its result counted.
    pub counted_round :
        (before : List ℕ) (k j : ℕ) (rc : ℤ) (s : State World)
        → rc ≡ pos j
        → j ≤ min b (length bytes - k)
        → IsSending bytes b fd k s.listener
        → IsSending bytes b fd (k + j) (with_count rc s).listener
    counted_round before k j rc s e le i = record {
      tcp = same_calls refl refl i.tcp;
      contents = i.contents;
      file_size = i.file_size;
      total = subst₂ (λ x y. x +ℤ y ≡ pos (k + j)) (sym i.total) (sym e) (pos-add k j);
      within = omega (arith, i.within);
      bufsize = i.bufsize;
      sock_d = i.sock_d;
    }
