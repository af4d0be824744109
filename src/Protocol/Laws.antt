-- ===== src/Protocol/Laws.antt =====
-- Which protocols of src/tb_protocol.c have a table.
use fastuserprotocol.Common.{◌≡◌, ◌↔◌, none, some, arith}
use fastuserprotocol.Protocol.{Protocol, tcp, a_udt, TbProtocol, tb_create_protocol}

-- A protocol has no table, so that creating one ends the process, exactly when it is aUDT.
pub tb_create_protocol-eq-none : (p : Protocol) → (tb_create_protocol p ≡ none) ↔ (p ≡ a_udt)
unfolding tb_create_protocol
tb_create_protocol-eq-none tcp = ground arith
tb_create_protocol-eq-none p = ground arith

-- A table that is created carries its own protocol.
pub tb_create_protocol-protocol :
    (p : Protocol) (t : TbProtocol) → tb_create_protocol p ≡ some t → t.protocol ≡ p
unfolding tb_create_protocol
tb_create_protocol-protocol tcp t h = ground arith
tb_create_protocol-protocol p t h = ground arith
