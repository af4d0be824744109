-- ===== src/Stream/Connection/Tests.antt =====
-- A run of one connection of a client of src/tb_stream.c.
use fastuserprotocol.Common.{ℕ, refl, some, List, [], ◌∷◌, arith}
use fastuserprotocol.Common.Int.{pos}
use fastuserprotocol.Protocol.{send}
use fastuserprotocol.Os.{Ends}
use fastuserprotocol.Os.Sample.{two_at_once, taken_by, some_address, two_at_once-SendsBytes}
use fastuserprotocol.Timer.{tb_create_time}
use fastuserprotocol.Session.{tb_create_session}
use fastuserprotocol.Stream.Connection.{Conn, tb_stream_connection}
use fastuserprotocol.Stream.Connection.Finished.{IsFinished, tb_stream_connection-IsFinished}

abbrev five : List ℕ
five = 10 ∷ 20 ∷ 30 ∷ 40 ∷ 50 ∷ []

-- Five bytes, three at a time, of which the socket takes two.
abbrev begun : Conn (List ℕ)
begun = record {
  session = record tb_create_session {
    contents = five;
    data_size = 5;
    pack_size = pos 3;
    sock_d = pos 3;
    addr_info = some some_address;
  };
  world = 1 ∷ [];
}

tb_stream_connection-IsFinished_example :
    Ends
      (IsFinished five 3 3
        (omega arith)
        two_at_once
        send
        taken_by
        two_at_once-SendsBytes
        (omega arith)
        (pos 0, 1 ∷ [])
        (1 ∷ []))
      (λ _. ⊥)
      (tb_stream_connection two_at_once 6 begun)
tb_stream_connection-IsFinished_example =
    tb_stream_connection-IsFinished five 3 3 (omega arith) two_at_once taken_by
      two_at_once-SendsBytes (omega arith) 6 begun tb_create_time some_address
      (record {
        contents = refl;
        data_size = refl;
        total_bytes = refl;
        within = omega arith;
        pack_size = refl;
        sock_d = refl;
        transfer_t = (tb_create_time, refl);
      })
      refl refl (omega arith)
