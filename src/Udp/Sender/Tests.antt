-- ===== src/Udp/Sender/Tests.antt =====
-- A run of one session of a client of src/tb_udp.c.
use fastuserprotocol.Common.{ℕ, refl, some, List, [], arith, replicate}
use fastuserprotocol.Common.Int.{pos}
use fastuserprotocol.Os.{Ends}
use fastuserprotocol.Os.Sample.{some_address}
use fastuserprotocol.Timer.{tb_create_time}
use fastuserprotocol.Session.{tb_create_session}
use fastuserprotocol.Stream.Connection.{Conn}
use fastuserprotocol.Udp.{Piece}
use fastuserprotocol.Udp.Sample.{still, outbox, in_outbox, outbox-PostsMessages}
use fastuserprotocol.Udp.Sender.{tb_udp_m_client_conn}
use fastuserprotocol.Udp.Sender.Posted.{IsPosted, tb_udp_m_client_conn-IsPosted}

-- Thirty bytes in packets of four, so that a packet counts as twelve.
abbrev thirty : List ℕ
thirty = replicate 30 5

abbrev begun : Conn (List (List Piece))
begun = record {
  session = record tb_create_session {
    id = pos 2;
    contents = thirty;
    data_size = 30;
    pack_size = pos 4;
    sock_d = pos 3;
    addr_info = some some_address;
  };
  world = [];
}

tb_udp_m_client_conn-IsPosted_example :
    Ends
      (IsPosted thirty 30 4
        (pos 3)
        (pos 2)
        (omega arith)
        (omega arith)
        (omega arith)
        still
        outbox
        in_outbox
        outbox-PostsMessages
        [])
      (λ _. ⊥)
      (tb_udp_m_client_conn still outbox 31 begun)
tb_udp_m_client_conn-IsPosted_example =
    tb_udp_m_client_conn-IsPosted thirty 30 4 (pos 3) (pos 2) (omega arith) (omega arith)
      (omega arith) still outbox in_outbox outbox-PostsMessages 31 begun some_address
      (record {
        contents = refl;
        data_size = refl;
        total_bytes = refl;
        pack_size = refl;
        sock_d = refl;
        its_id = refl;
        transfer_t = (tb_create_time, refl);
      })
      refl (omega arith)
