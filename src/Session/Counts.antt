-- ===== src/Session/Counts.antt =====
-- Adding a session in src/tb_session.c leaves the count of the active connections alone.
use mathlib.Core.Path.{subst}
use fastuserprotocol.Common.{◌≡◌, arith, none}
use fastuserprotocol.Common.Int.{ℤ}
use fastuserprotocol.Os.{Run, ok}
use fastuserprotocol.Stats.{Ptr}
use fastuserprotocol.Session.{Sessions, append_end, tb_session_add_to, tb_session_add}

abbrev HasActive : ℤ → Run Sessions (Unit {0}) → Type 0
HasActive n (ok _ s) = s.num_active_conn ≡ n
HasActive n _ = Unit {0}

tb_session_add-HasActive :
    (p : Ptr) (s : Sessions) → HasActive s.num_active_conn (tb_session_add p s)
unfolding tb_session_add tb_session_add_to append_end
tb_session_add-HasActive p s = ground arith

pub tb_session_add-num_active :
    (p : Ptr) (s s' : Sessions)
    → tb_session_add p s ≡ ok tt s'
    → s'.num_active_conn ≡ s.num_active_conn
tb_session_add-num_active p s s' e =
    subst (HasActive s.num_active_conn) e (tb_session_add-HasActive p s)

tb_session_add_to-HasActive :
    (p : Ptr) (s : Sessions) → HasActive s.num_active_conn (tb_session_add_to p s)
unfolding tb_session_add_to append_end
tb_session_add_to-HasActive p s = ground arith

pub tb_session_add_to-num_active :
    (p : Ptr) (s s' : Sessions)
    → tb_session_add_to p s ≡ ok tt s'
    → s'.num_active_conn ≡ s.num_active_conn
tb_session_add_to-num_active p s s' e =
    subst (HasActive s.num_active_conn) e (tb_session_add_to-HasActive p s)

abbrev KeepsUnused : Ptr → Run Sessions (Unit {0}) → Type 0
KeepsUnused a (ok _ s) = s.store a ≡ none
KeepsUnused a _ = Unit {0}

tb_session_add-KeepsUnused :
    (p : Ptr) (s : Sessions) (a : Ptr) → s.store a ≡ none → KeepsUnused a (tb_session_add p s)
unfolding tb_session_add tb_session_add_to append_end
tb_session_add-KeepsUnused p s a e = ground (arith, e)

-- An address at which there is no session stays so.
pub tb_session_add-unused :
    (p : Ptr) (s s' : Sessions) (a : Ptr)
    → tb_session_add p s ≡ ok tt s'
    → s.store a ≡ none
    → s'.store a ≡ none
tb_session_add-unused p s s' a run e =
    subst (KeepsUnused a) run (tb_session_add-KeepsUnused p s a e)
