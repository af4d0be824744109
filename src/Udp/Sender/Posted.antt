-- ===== src/Udp/Sender/Posted.antt =====
-- What tb_udp_m_client_conn of src/tb_udp.c has sent when it returns.
use Prim.Native.Nat.{min}
use mathlib.Core.Path.{subst, subst₂}
use mathlib.Core.List.{append-nil}
use fastuserprotocol.Common.{
  ℕ, ◌+◌, ◌^◌, ◌<◌, ◌≤◌, ◌≡◌, refl, sym, ap, ◌∙◌, ◌⊎◌, inl, inr, Option, some, List, [], ◌∷◌, ◌++◌,
  arith, if◌then◌else◌, length, Bool-cases,
}
use fastuserprotocol.Common.Int.{ℤ, pos, minus_one, ltb_ℤ, ◌≤ℤ◌}
use fastuserprotocol.Protocol.{connect}
use fastuserprotocol.Os.{Os, AddrInfo, Ends, Ends-bind, ◌>>=◌, ◌>>◌, pure}
use fastuserprotocol.Timer.{tb_start_time, tb_finish_time}
use fastuserprotocol.Session.{session_connected, session_complete}
use fastuserprotocol.Stream.Connection.{
  Conn, start_time, finish_time, connect_session, put_transfer, set_session,
}
use fastuserprotocol.Udp.{Messages, Piece}
use fastuserprotocol.Udp.Contract.{PostsMessages}
use fastuserprotocol.Udp.Sender.{post, sender_loop, end_sending, send_all, tb_udp_m_client_conn}
use fastuserprotocol.Udp.Sender.Laws.{IsPosting, message, later, LoopDone, sender_loop-Ends}

module _ (bytes : List ℕ) (n p : ℕ) (fd id : ℤ) (share : n ≤ length bytes) (small : n < 2 ^ 31)
    (packet : p < 2 ^ 31) {World : Type 0} (os : Os World) (msgs : Messages World)
    (posted : ℤ → World → List (List Piece)) (law : PostsMessages os msgs posted) where
  -- All the messages of the loop.
  abbrev pub all_messages : List (List Piece)
  all_messages = message bytes n p fd id 0 0 ∷ later bytes n p fd id n (8 + min p n)

  -- The thread returns 0, is complete, and has sent these messages, after those before, and one more;
  -- or it returns -1.
  abbrev pub IsPosted : List (List Piece) → ℤ → Conn World → Type 0
  IsPosted before r s =
      ((r ≡ pos 0)
        × (s.status ≡ session_complete)
        × (pos n ≤ℤ s.total_bytes)
        × ((last : List (List Piece)) × (length last ≤ 1)
            × (posted fd s.world ≡ (before ++ all_messages) ++ last)))
      ⊎ (r ≡ minus_one)

  abbrev Looped : List (List Piece) → Option (List Piece) → Conn World → Type 0
  Looped ms r s = LoopDone bytes n p fd id share small packet os msgs posted law ms r s

  end_sending-Ends :
      (before : List (List Piece)) (r : Option (List Piece)) (s : Conn World)
      → Looped (before ++ all_messages) r s
      → Ends (IsPosted before) (λ _. ⊥) (end_sending os msgs r s)
  unfolding end_sending finish_time tb_finish_time post
  end_sending-Ends before r s (inl e) = rw e (inr refl)
  end_sending-Ends before r s (inr (m, k, e, all, (i, h))) =
      let (timer, at) = i.transfer_t in
      let w = (os.clock_gettime s.world).1 in
      let counted : pos n ≤ℤ s.total_bytes =
        subst (λ x. pos n ≤ℤ x) (sym i.total_bytes) (omega arith) in
      let before_last : posted fd w ≡ before ++ all_messages = law.reading_clock fd s.world ∙ h in
      rw e (
        subst
          (λ o.
            Ends (IsPosted before) (λ _. ⊥)
              ((finish_time os o put_transfer
                  >> (post os msgs (some m) >>= λ _.
                      set_session os (λ c. record c { status = session_complete }) >> pure (pos 0)))
                s))
          (sym at)
          (inl (
            refl,
            refl,
            counted,
            elim (law.posts s.sock_d m w) [
              | inl (_, same) ↦ (
                [],
                omega arith,
                subst (λ d. posted d (msgs.sendmsg s.sock_d m w).1 ≡ posted d w) i.sock_d same
                    ∙ before_last
                    ∙ sym (append-nil (before ++ all_messages)),
              )
              | inr (_, got) ↦ (
                m ∷ [],
                omega arith,
                subst (λ d. posted d (msgs.sendmsg s.sock_d m w).1 ≡ posted d w ++ m ∷ []) i.sock_d
                      got
                    ∙ ap (λ l. l ++ m ∷ []) before_last,
              )
            ],
          )))

  Ready : List (List Piece) → Conn World → Type 0
  Ready before s = IsPosting bytes n p fd id 0 s.session × (posted fd s.world ≡ before)

  send_all-Ends :
      (fuel : ℕ) (before : List (List Piece)) (s : Conn World)
      → Ready before s
      → n < fuel
      → Ends (IsPosted before) (λ _. ⊥) (send_all os msgs fuel s)
  unfolding send_all Ready finish_time start_time tb_finish_time tb_start_time
  send_all-Ends fuel before s (i, h) lt =
      let (timer, at) = i.transfer_t in
      let w = (os.clock_gettime s.world).1 in
      let finished = (tb_finish_time os timer s.world).0 in
      let started : Conn World = record {
        session = record s.session {
          transfer_t = some (tb_start_time os finished w).0;
          status = session_connected;
        };
        world = (os.clock_gettime w).1;
      } in
      subst
        (λ o.
          Ends (IsPosted before) (λ _. ⊥)
            ((finish_time os o put_transfer
                >> (set_session os (λ c. record c { status = session_connected }) >> λ t.
                    (start_time os t.transfer_t put_transfer
                        >> (sender_loop os msgs fuel (pos 0) >>= end_sending os msgs))
                      t))
              s))
        (sym at)
        (Ends-bind (Looped (before ++ all_messages)) (IsPosted before) (λ _. ⊥)
          (sender_loop os msgs fuel (pos 0)) (end_sending os msgs) started
          (sender_loop-Ends bytes n p fd id share small packet os msgs posted law fuel before
            started
            (
              record {
                contents = i.contents;
                data_size = i.data_size;
                total_bytes = i.total_bytes;
                pack_size = i.pack_size;
                sock_d = i.sock_d;
                its_id = i.its_id;
                transfer_t = ((tb_start_time os finished w).0, refl);
              },
              law.reading_clock fd w ∙ law.reading_clock fd s.world ∙ h,
            )
            lt)
          (λ r t d. end_sending-Ends before r t d))

  -- The thread of a session for UDP that has an address and its timer, and a share of less than
  -- 2 ^ 31 bytes of its data, of which it has sent none, in packets of less than 2 ^ 31, returns: it
  -- reads through no null pointer and not beyond its data, and one round more than its share has
  -- bytes is enough. It returns -1, or it returns 0, is complete, and has counted at least as many
  -- bytes as its share has, the headers among them: it has sent one message with the first packet
  -- of its share, and then only messages that start behind a packet and a header, whatever was sent
  -- before, each shorter by what is counted; at most one more message follows these.
  pub tb_udp_m_client_conn-IsPosted :
      (fuel : ℕ) (s : Conn World) (info : AddrInfo)
      → IsPosting bytes n p fd id 0 s.session
      → s.addr_info ≡ some info
      → n < fuel
      → Ends (IsPosted (posted fd s.world)) (λ _. ⊥) (tb_udp_m_client_conn os msgs fuel s)
  unfolding tb_udp_m_client_conn connect_session start_time tb_start_time Ready
  tb_udp_m_client_conn-IsPosted fuel s info i addr lt =
      let (timer, at) = i.transfer_t in
      let before = posted fd s.world in
      let w = (os.clock_gettime s.world).1 in
      let r = os.connect connect s.sock_d info w in
      let opened : Conn World = record {
        session = record s.session { transfer_t = some (tb_start_time os timer s.world).0 };
        world = r.1;
      } in
      subst₂
        (λ o a.
          Ends (IsPosted before) (λ _. ⊥)
            ((start_time os o put_transfer
                >> (connect_session os connect a >>= λ rc.
                    if ltb_ℤ rc (pos 0) then pure minus_one else send_all os msgs fuel))
              s))
        (sym at) (sym addr)
        (elim (Bool-cases (ltb_ℤ r.0 (pos 0))) [
          | inl bad ↦ rw bad (inr refl)
          | inr good ↦ rw good (
              send_all-Ends fuel before opened
                (
                  record {
                    contents = i.contents;
                    data_size = i.data_size;
                    total_bytes = i.total_bytes;
                    pack_size = i.pack_size;
                    sock_d = i.sock_d;
                    its_id = i.its_id;
                    transfer_t = ((tb_start_time os timer s.world).0, refl);
                  },
                  law.connecting connect fd s.sock_d info w ∙ law.reading_clock fd s.world,
                )
                lt)
        ])
