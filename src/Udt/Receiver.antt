-- ===== src/Udt/Receiver.antt =====
-- tb_udt_m_server_conn of src/tb_udt.c: the thread of one of the connections of a server.
pub mod Laws
mod Tests
use fastuserprotocol.Common.{ℕ, Option, none, some, if◌then◌else◌}
use fastuserprotocol.Common.Int.{ℤ, minus_one, ◌==ℤ◌}
use fastuserprotocol.Protocol.{udt_recv, udt_close}
use fastuserprotocol.Os.{Os, Run, ok, pure, ◌>>=◌}
use fastuserprotocol.Stream.Receiver.{Door, server_conn}
use fastuserprotocol.Udt.{Udt, is_broken}

-- The place that `retval` points to: -1 is written to it after an error, and nothing else ever is.
abbrev pub retval : ℤ → Option ℤ
retval rc = if rc ==ℤ minus_one then some minus_one else none

pub tb_udt_m_server_conn :
    {World : Type 0} → Os World → Udt World → ℕ → Door World → Run (Door World) (Option ℤ)
unfolding server_conn
tb_udt_m_server_conn os udt fuel s =
    (server_conn os udt_recv udt_close (is_broken udt) fuel >>= λ rc. pure (retval rc)) s
