-- ===== src/Udt/Connection.antt =====
-- tb_udt_m_connection of src/tb_udt.c: the thread of one of the connections of a client.
pub mod Laws
use fastuserprotocol.Common.{ℕ}
use fastuserprotocol.Common.Int.{ℤ}
use fastuserprotocol.Protocol.{udt_connect, udt_send}
use fastuserprotocol.Os.{Os, Run}
use fastuserprotocol.Stream.Connection.{Conn, connection_by}

-- It does what the thread of a connection over TCP does, with the calls of the UDT library.
pub tb_udt_m_connection : {World : Type 0} → Os World → ℕ → Conn World → Run (Conn World) ℤ
unfolding connection_by
tb_udt_m_connection os fuel s = connection_by os udt_connect udt_send fuel s
