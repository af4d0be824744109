-- ===== src/Udp/Server/Loop.antt =====
-- What the loop of tb_udp_server of src/tb_udp.c counts.
use Prim.Native.Nat.{min}
use mathlib.Core.Path.{subst, subst₂}
use fastuserprotocol.Common.{
  ℕ, zero, suc, ◌+◌, ◌<◌, ◌≡◌, sym, ◌∙◌, true, false, List, [], ◌∷◌, ◌++◌, arith, if◌then◌else◌,
  length, ◌==◌,
}
use fastuserprotocol.Common.Int.{ℤ, pos, ◌+ℤ◌, ◌==ℤ◌, +ℤ-id_right}
use fastuserprotocol.Os.{Os, Run, Ends, Ends-bind, ◌>>=◌, ◌>>◌, pure}
use fastuserprotocol.Session.{TbSession}
use fastuserprotocol.Listener.{tb_continue, leaves_loop}
use fastuserprotocol.Listener.Net.{State, tb_send_to, read_command}
use fastuserprotocol.Listener.Net.Laws.{IsAborted, read_on}
use fastuserprotocol.Udp.Contract.{ReceivesDatagrams}
use fastuserprotocol.Udp.Server.{count_last, receive, server_loop}
use fastuserprotocol.Udp.Server.Laws.{
  IsUdpServer, HasRoom, HasReceived, received_of, NoneEmpty, Counted, with_last, counted_total,
  counted_server, receive-Ends, tb_send_to-Ends,
}

module _ {World : Type 0} (os : Os World) (coming : ℤ → World → List ℕ)
    (law : ReceivesDatagrams os coming) (b : ℕ) (fd : ℤ) where
  -- How the answer of a receive compares with the end of the transmission.
  compared :
      (total : ℤ) (n : ℕ) (ns : List ℕ) (c : TbSession) (s : State World)
      → HasReceived os coming law b fd total n ns c s
      → (c.last_trans ==ℤ s.protocol.eot) ≡ (min b n == 0)
  compared total n ns c s (r, room, last, left) =
      subst₂ (λ x y. (x ==ℤ y) ≡ (min b n == 0)) (sym last) (sym r.eot) (ground arith)

  module _ (quiet : (w : World) → (os.interrupted w).0 ≡ false) (buffer : 0 < b) where
    checked : State World → State World
    checked s = record s { world = (os.interrupted s.world).1 }

    goes_on :
        (P : Unit {0} → State World → Type 0) (body : State World → Run (State World) (Unit {0}))
        (total : ℤ) (s : State World)
        → IsUdpServer fd total s.listener
        → Ends P (IsAborted os) (body (checked s))
        → Ends P
            (IsAborted os)
            ((read_command os >>= λ command. if leaves_loop command then pure tt else body) s)
    unfolding checked
    goes_on P body total s r h =
        read_on os P s tb_continue (λ command. if leaves_loop command then pure tt else body)
          (quiet s.world) r.command h

    pub server_loop-Counted :
        (fuel : ℕ) (total : ℤ) (ns rest : List ℕ) (c : TbSession) (s : State World)
        → IsUdpServer fd total s.listener
        → HasRoom b c
        → NoneEmpty ns
        → coming fd s.world ≡ ns ++ 0 ∷ rest
        → length ns < fuel
        → Ends
            (Counted os coming law b fd (total +ℤ pos (received_of b ns)) rest)
            (IsAborted os)
            (server_loop os fuel c s)
    unfolding server_loop checked
    server_loop-Counted zero total ns rest c s r room pn e lt = absurd (omega arith)
    server_loop-Counted (suc fuel) total [] rest c s r room pn e lt =
        let Done = Counted os coming law b fd (total +ℤ pos 0) rest in
        let round = λ (c' : TbSession) (s' : State World).
          (if c'.last_trans ==ℤ s'.protocol.eot
              then tb_send_to os c' >>= (λ _. pure tt)
              else count_last os c' >> server_loop os fuel c')
            s' in
        goes_on Done (receive os c >>= round) total s r (
          Ends-bind (HasReceived os coming law b fd total 0 rest) Done (IsAborted os) (receive os c)
            round (checked s)
            (receive-Ends os coming law b fd total 0 rest c (checked s) r room
              (law.checking_signals fd s.world ∙ e))
            (λ c' t g.
              let last : (c'.last_trans ==ℤ t.protocol.eot) ≡ true =
                compared total 0 rest c' t g ∙ (ground arith) in
              subst
                (λ b. Ends Done (IsAborted os) (
                  (if b
                      then tb_send_to os c' >>= (λ _. pure tt)
                      else count_last os c' >> server_loop os fuel c')
                    t))
                (sym last)
                (Ends-bind (λ _ s'. IsUdpServer fd total s'.listener × (coming fd s'.world ≡ rest))
                  Done (IsAborted os) (tb_send_to os c') (λ _. pure tt) t
                  (tb_send_to-Ends os coming law b fd total rest c' t g.0 g.1 g.3)
                  (λ _ u h. (
                    subst (λ k. IsUdpServer fd k u.listener) (sym (+ℤ-id_right total)) h.0,
                    h.1,
                  )))))
    server_loop-Counted (suc fuel) total (n ∷ ns) rest c s r room (some_bytes, pn) e lt =
        let after = ns ++ 0 ∷ rest in
        let Done = Counted os coming law b fd (total +ℤ pos (min b n + received_of b ns)) rest in
        let round = λ (c' : TbSession) (s' : State World).
          (if c'.last_trans ==ℤ s'.protocol.eot
              then tb_send_to os c' >>= (λ _. pure tt)
              else count_last os c' >> server_loop os fuel c')
            s' in
        goes_on Done (receive os c >>= round) total s r (
          Ends-bind (HasReceived os coming law b fd total n after) Done (IsAborted os)
            (receive os c) round (checked s)
            (receive-Ends os coming law b fd total n after c (checked s) r room
              (law.checking_signals fd s.world ∙ e))
            (λ c' t g.
              let more : (c'.last_trans ==ℤ t.protocol.eot) ≡ false =
                compared total n after c' t g ∙ (ground arith) in
              subst
                (λ b. Ends Done (IsAborted os) (
                  (if b
                      then tb_send_to os c' >>= (λ _. pure tt)
                      else count_last os c' >> server_loop os fuel c')
                    t))
                (sym more)
                (subst
                  (λ k.
                    Ends (Counted os coming law b fd k rest) (IsAborted os)
                      (server_loop os fuel c' (with_last os coming law b fd c' t)))
                  (counted_total os coming law b fd total (min b n) ns)
                  (server_loop-Counted fuel (total +ℤ pos (min b n)) ns rest c'
                    (with_last os coming law b fd c' t)
                    (counted_server os coming law b fd total n after c' t g) g.1 pn g.3
                    (omega arith)))))
