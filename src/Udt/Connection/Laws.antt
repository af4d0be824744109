-- ===== src/Udt/Connection/Laws.antt =====
-- How a connection of a client ends, tb_udt_m_connection of src/tb_udt.c.
use fastuserprotocol.Common.{ℕ, ◌^◌, ◌<◌, ◌≡◌, some, List, length}
use fastuserprotocol.Common.Int.{ℤ, pos}
use fastuserprotocol.Protocol.{udt_connect, udt_send}
use fastuserprotocol.Os.{Os, AddrInfo, Ends}
use fastuserprotocol.Os.Contract.{SendsBytes}
use fastuserprotocol.Timer.{TbTime}
use fastuserprotocol.Stream.Connection.{Conn}
use fastuserprotocol.Stream.Connection.Laws.{IsMidway}
use fastuserprotocol.Stream.Connection.Finished.{IsFinished, connection_by-IsFinished}
use fastuserprotocol.Udt.Connection.{tb_udt_m_connection}

-- A connection over UDT whose session has an address, its timers, a send size of at least one byte
-- and data of less than 2 ^ 31 bytes, none of them sent yet, returns, and does so as `IsFinished`
-- says: with 0 and all its data sent in order, or with -1 and a part of it from the start, when the
-- connect has answered -1, or the send of what follows that part has. One more round than there are bytes is enough.
pub tb_udt_m_connection-IsFinished :
    (bytes : List ℕ) (b fd : ℕ) (small : length bytes < 2 ^ 31) {World : Type 0} (os : Os World)
    (sent : ℤ → World → List ℕ) (law : SendsBytes os udt_send sent) (buffer : 0 < b) (fuel : ℕ)
    (s : Conn World) (ct : TbTime) (info : AddrInfo)
    → IsMidway bytes b fd 0 s.session
    → s.connect_t ≡ some ct
    → s.addr_info ≡ some info
    → length bytes < fuel
    → Ends
        (IsFinished bytes b fd small os udt_send sent law buffer
          (os.connect udt_connect (pos fd) info (os.clock_gettime s.world).1)
          (sent (pos fd) s.world))
        (λ _. ⊥)
        (tb_udt_m_connection os fuel s)
unfolding tb_udt_m_connection
tb_udt_m_connection-IsFinished bytes b fd small os sent law buffer fuel s ct info i cat addr
      enough =
    connection_by-IsFinished bytes b fd small os udt_send sent law buffer udt_connect fuel s ct info
      i cat addr enough
