-- ===== src/Udt/Client/Laws.antt =====
-- What tb_udt_client of src/tb_udt.c sends.
use Prim.Native.Nat.{min}
use mathlib.Core.Path.{subst, subst₂}
use mathlib.Core.List.{append-nil}
use fastuserprotocol.Common.{
  ℕ, zero, suc, ◌+◌, ◌-◌, ◌^◌, ◌<◌, ◌≤◌, ◌≡◌, ◌⊎◌, refl, sym, ap, ◌∙◌, inl, inr, true, some, List,
  ◌++◌, arith, length, take, ltb, Bool-cases, if◌then◌else◌,
}
use fastuserprotocol.Common.Int.{ℤ, pos, minus_one, ltb_ℤ}
use fastuserprotocol.Protocol.{udt_connect, udt_send, udt_close}
use fastuserprotocol.Os.{Os, AddrInfo, Ends, Ends-bind, Ends-mono, ◌>>=◌, ◌>>◌, get, pure}
use fastuserprotocol.Os.Contract.{SendsBytes, SignalsSendNothing}
use fastuserprotocol.Listener.{tb_connected, tb_disconnected}
use fastuserprotocol.Timer.{tb_start_time, tb_finish_time}
use fastuserprotocol.Listener.Net.{
  State, set_status, start_transfer, finish_transfer, finish_connect, tb_connect, read_command,
}
use fastuserprotocol.Listener.Net.Laws.{IsAborted, IsConnected, tb_connect-by}
use fastuserprotocol.Stream.Client.{count_bytes}
use fastuserprotocol.Stream.Client.Round.{SizeFits, size_kept, next_size-fits, with_count}
use fastuserprotocol.Udt.{Udt}
use fastuserprotocol.Udt.Client.{
  is_over, send_rest, upload_loop, open_upload, close_upload, tb_udt_client,
}
use fastuserprotocol.Udt.Client.Round.{
  IsUploading, HasUploaded, Read, Sent, read_command-Ends, send_rest-Ends,
}

-- What a client that has come to its end has done: it returns how many bytes it has sent, which the
-- socket has taken from the start of the data, in order and nothing else; unless these are all, the
-- command was to leave. It has closed its socket.
pub record IsUploaded {World : Type 0} (bytes : List ℕ) (taken taken' : List ℕ) (r : ℤ)
    (s : State World) : Type 0 where
  pub size : ℕ
  pub result : r ≡ pos size
  pub within : size ≤ length bytes
  pub sent : taken' ≡ taken ++ take size bytes
  pub why : (size ≡ length bytes) ⊎ (is_over s.command ≡ true)
  pub total : s.total_tx_rx ≡ pos size
  pub sock_d : s.sock_d ≡ minus_one
  pub status : s.status ≡ tb_disconnected

module _ {World : Type 0} (os : Os World) (udt : Udt World) (sent : ℤ → World → List ℕ)
    (law : SendsBytes os udt_send sent) (calm : SignalsSendNothing os sent)
    (cleaning : (fd : ℤ) (w : World) → sent fd (udt.udt_cleanup w) ≡ sent fd w) (bytes : List ℕ)
    (b fd : ℕ) (buffer : 0 < b) (small : length bytes < 2 ^ 31) where
  abbrev Sending : List ℕ → ℕ → State World → Type 0
  Sending before k s = HasUploaded sent bytes b fd before k s

  -- How the loop ends.
  abbrev Over : List ℕ → Unit {0} → State World → Type 0
  Over before _ s =
      (k : ℕ) × (Sending before k s) × ((k ≡ length bytes) ⊎ (is_over s.command ≡ true))

  goes_on :
      (k : ℕ) (s : State World)
      → IsUploading bytes b fd k s.listener
      → ltb_ℤ s.total_tx_rx s.file_size ≡ ltb k (length bytes)
  goes_on k s i =
      subst₂ (λ x y. ltb_ℤ x y ≡ ltb k (length bytes)) (sym i.total) (sym i.file_size)
        (ground arith)

  upload_loop-Ends :
      (fuel : ℕ) (before : List ℕ) (k : ℕ) (s : State World) (sz : ℤ)
      → Sending before k s
      → SizeFits bytes b k sz
      → length bytes - k < fuel
      → Ends (Over before) (IsAborted os) (upload_loop os udt fuel sz s)
  unfolding upload_loop
  upload_loop-Ends zero before k s sz h f lt = absurd (omega arith)
  upload_loop-Ends (suc fuel) before k s sz (i, h) f lt =
      let m = min b (length bytes - k) in
      let round =
        λ (z : ℤ). send_rest os udt z >>= λ rc. count_bytes os rc >> upload_loop os udt fuel z in
      subst₂
        (λ t z. Ends (Over before) (IsAborted os) (
          (if t then read_command os >>= (λ c. if is_over c then pure tt else round z) else pure tt)
            s))
        (sym (goes_on k s i))
        (sym (
          next_size-fits os bytes b k s.listener sz i.file_size i.total i.within i.bufsize f small))
        (elim (Bool-cases (ltb k (length bytes))) [
          | inl more ↦ rw more (
              Ends-bind (Read sent bytes b fd before k) (Over before) (IsAborted os)
                (read_command os) (λ c. if is_over c then pure tt else round (pos m)) s
                (read_command-Ends os udt sent law bytes b fd buffer small calm before k s (i, h))
                λ c t g. elim (Bool-cases (is_over c)) [
                  | inl over ↦ rw over (k, g.1, inr (ap is_over g.0 ∙ over))
                  | inr stay ↦ rw stay (
                      Ends-bind (Sent sent bytes b fd before k) (Over before) (IsAborted os)
                        (send_rest os udt (pos m))
                        (λ rc. count_bytes os rc >> upload_loop os udt fuel (pos m)) t
                        (send_rest-Ends os udt sent law bytes b fd buffer small before k m t g.1
                          (omega arith) (ground arith))
                        λ rc u n.
                          upload_loop-Ends fuel before (k + n.0) (with_count rc u) (pos m) n.2
                            (size_kept bytes b k n.0) (ground (arith, n.1)))
                ])
          | inr done ↦ rw done (k, (i, h), inl (ground (arith, i.within)))
        ])

  open_upload-Ends :
      (before : List ℕ) (info : AddrInfo) (s : State World)
      → Sending before 0 s
      → s.addr_info ≡ some info
      → Ends (λ _ t. Sending before 0 t) (IsAborted os) (open_upload os udt s)
  unfolding open_upload tb_start_time tb_finish_time
  open_upload-Ends before info s (i, h) addr =
      Ends-bind (λ _ t. Sending before 0 t) (λ _ t. Sending before 0 t) (IsAborted os)
        (tb_connect os)
        (λ _. finish_connect os >> (set_status os tb_connected >> start_transfer os)) opened
        (Ends-mono (IsConnected os udt_connect info opened) (λ _ t. Sending before 0 t)
          (IsAborted os) (tb_connect os opened)
          (tb_connect-by os udt_connect udt_close info opened (ground (arith, i.calls)) addr)
          λ rc t g. (
            subst (IsUploading bytes b fd 0) (sym g.1) (ground (arith, i)),
            ap (sent (pos fd)) g.2
                ∙ law.connecting udt_connect (pos fd) s.sock_d info opened.world
                ∙ law.reading_clock (pos fd) s.world
                ∙ h,
          ))
        (λ _ t g. (
          ground (arith, g.0),
          law.reading_clock (pos fd) _ ∙ law.reading_clock (pos fd) t.world ∙ g.1,
        ))
    where
      opened : State World
      opened = record {
        listener = record s.listener { connect_time = (tb_start_time os s.connect_time s.world).0 };
        world = (os.clock_gettime s.world).1;
      }

  close_upload-Ends :
      (before : List ℕ) (s : State World)
      → Over before tt s
      → Ends
          (λ r t. IsUploaded bytes before (sent (pos fd) t.world) r t)
          (IsAborted os)
          ((finish_transfer os >> close_upload os udt) s)
  unfolding close_upload tb_finish_time
  close_upload-Ends before s (k, (i, h), why) =
      let w = (os.clock_gettime s.world).1 in
      record {
        size = k;
        result = i.total;
        within = i.within;
        sent =
            cleaning (pos fd) (os.close udt_close s.sock_d w)
            ∙ law.closing udt_close (pos fd) s.sock_d w
            ∙ law.reading_clock (pos fd) s.world
            ∙ h;
        why = why;
        total = i.total;
        sock_d = refl;
        status = refl;
      }

  -- A client for UDT with an address, with data of less than 2 ^ 31 bytes, none of it sent yet, and
  -- with a buffer of at least one byte either returns as `IsUploaded` says or ends its thread
  -- aborted, whenever a signal comes in. It never reads beyond its data, calls through no null
  -- pointer, and one more round than there are bytes is enough.
  pub tb_udt_client-IsUploaded :
      (info : AddrInfo) (fuel : ℕ) (s : State World)
      → IsUploading bytes b fd 0 s.listener
      → s.addr_info ≡ some info
      → length bytes < fuel
      → Ends
          (λ r t. IsUploaded bytes (sent (pos fd) s.world) (sent (pos fd) t.world) r t)
          (IsAborted os)
          (tb_udt_client os udt fuel s)
  unfolding tb_udt_client
  tb_udt_client-IsUploaded info fuel s i addr enough =
      let before = sent (pos fd) s.world in
      let done = λ (r : ℤ) (t : State World). IsUploaded bytes before (sent (pos fd) t.world) r t in
      Ends-bind (λ _ t. Sending before 0 t) done (IsAborted os) (open_upload os udt)
        (λ _. get >>= λ t.
          upload_loop os udt fuel t.bufsize >> (finish_transfer os >> close_upload os udt))
        s (open_upload-Ends before info s (i, sym (append-nil before)) addr)
        λ _ t g.
          Ends-bind (Over before) done (IsAborted os) (upload_loop os udt fuel t.bufsize)
            (λ _. finish_transfer os >> close_upload os udt) t
            (upload_loop-Ends fuel before 0 t t.bufsize g (inl g.0.bufsize) (omega arith))
            (λ _ u o. close_upload-Ends before u o)
