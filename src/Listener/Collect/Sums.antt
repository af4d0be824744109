-- ===== src/Listener/Collect/Sums.antt =====
-- What tb_set_m_stats of src/tb_listener.c adds up.
use fastuserprotocol.Common.{◌≡◌, false, none, some, List, [], ◌∷◌}
use fastuserprotocol.Common.Int.{ℤ, pos, ◌+ℤ◌}
use fastuserprotocol.Os.{Os}
use fastuserprotocol.Stats.{Ptr, TbProtStats}
use fastuserprotocol.Session.{TbSession, Store, Sessions, session_connected}
use fastuserprotocol.Session.Chain.{Chain}
use fastuserprotocol.Listener.{TbListener}
use fastuserprotocol.Listener.Collect.{Totals, average}

-- The sum of a value over the sessions of a list.
abbrev pub sum_of : (TbSession → ℤ) → Store → List Ptr → ℤ
sum_of v h [] = pos 0
sum_of v h (x ∷ xs) = elim (h x) [ none ↦ pos 0 | some c ↦ v c ] +ℤ sum_of v h xs

-- What a connected session reports; any other one reports 0.
abbrev pub reported : (TbProtStats → ℤ) → TbSession → ℤ
reported v c = elim c.status [
  | session_connected ↦ elim c.stats [ none ↦ pos 0 | some t ↦ v t ]
  | _ ↦ pos 0
]

-- The sums with one more session in them.
abbrev counted : Totals → TbSession → Totals
counted a c = record {
  current_read = a.current_read +ℤ c.total_bytes;
  total_tx_rx = a.total_tx_rx +ℤ c.total_bytes;
  send_p_loss = a.send_p_loss +ℤ reported (λ t. t.send_p_loss) c;
  recv_p_loss = a.recv_p_loss +ℤ reported (λ t. t.recv_p_loss) c;
  num_sessions = a.num_sessions +ℤ reported (λ t. pos 1) c;
}

module _ {World : Type 0} (os : Os World) where
  abbrev Counts : TbSession → Totals × World → TbSession → Totals × World → Type 0
  Counts c s c' s' = (s'.0 ≡ counted s.0 c') × (c'.total_bytes ≡ c.total_bytes)

  -- What a listener reads when the sums over the sessions `xs` of a store are set in it.
  pub record HasSums (h : Store) (xs : List Ptr) (l : TbListener) : Type 0 where
    pub total : l.total_tx_rx ≡ sum_of (λ c. c.total_bytes) h xs
    pub current_read : l.stats.current_read ≡ sum_of (λ c. c.total_bytes) h xs
    pub send_p_loss :
        let n = sum_of (reported (λ t. pos 1)) h xs in
        let sum = sum_of (reported (λ t. t.send_p_loss)) h xs in l.stats.send_p_loss ≡ average n sum
    pub recv_p_loss :
        let n = sum_of (reported (λ t. pos 1)) h xs in
        let sum = sum_of (reported (λ t. t.recv_p_loss)) h xs in l.stats.recv_p_loss ≡ average n sum
    pub read : l.read ≡ false
    pub l_status : l.l_status ≡ l.status

  abbrev listed : TbListener → Store → Sessions
  listed l h = record { list = l.session_list; store = h }
