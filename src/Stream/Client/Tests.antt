-- ===== src/Stream/Client/Tests.antt =====
-- Runs of the client of src/tb_stream.c.
use fastuserprotocol.Common.{ℕ, ◌≡◌, refl, true, false, List, [], ◌∷◌, arith}
use fastuserprotocol.Common.Int.{◌==ℤ◌, minus_one, pos}
use fastuserprotocol.Protocol.{connect}
use fastuserprotocol.Os.{Ends}
use fastuserprotocol.Os.Sample.{two_at_once, taken_by, some_address, two_at_once-SendsBytes}
use fastuserprotocol.Listener.Sample.{tcp_client, tcp_client-IsTcpClient}
use fastuserprotocol.Listener.Net.{State, tb_send_data, tb_connect}
use fastuserprotocol.Listener.{tb_aborting}
use fastuserprotocol.Listener.Net.Laws.{IsAborted, Sent, tb_send_data-Ends, tb_connect-Ends}
use fastuserprotocol.Stream.Client.{tb_stream_client}
use fastuserprotocol.Stream.Client.Laws.{IsDone, tb_stream_client-IsDone}

abbrev five : List ℕ
five = 10 ∷ 20 ∷ 30 ∷ 40 ∷ 50 ∷ []

abbrev begun : State (List ℕ)
begun = record { listener = tcp_client five; world = 1 ∷ [] }

-- A buffer of three bytes, of which the socket takes two at a time.
tb_stream_client-IsDone_example :
    Ends
      (λ r s'. IsDone five (1 ∷ []) s'.world r s')
      (IsAborted two_at_once)
      (tb_stream_client two_at_once 6 begun)
tb_stream_client-IsDone_example =
    tb_stream_client-IsDone two_at_once taken_by five 3 3 some_address 6 begun
      two_at_once-SendsBytes (omega arith) (omega arith)
      (record {
        tcp = tcp_client-IsTcpClient five;
        contents = refl;
        file_size = refl;
        total = refl;
        within = omega arith;
        bufsize = refl;
        sock_d = refl;
      })
      refl (omega arith)

tb_send_data-Ends_example :
    Ends
      (Sent two_at_once taken_by begun (10 ∷ 20 ∷ 30 ∷ []))
      (IsAborted two_at_once)
      (tb_send_data two_at_once five (pos 3) begun)
tb_send_data-Ends_example =
    tb_send_data-Ends two_at_once taken_by begun five 3 two_at_once-SendsBytes
      (tcp_client-IsTcpClient five) (omega arith) (omega arith)

tb_connect-Ends_example :
    Ends
      (λ rc s'.
        (rc ≡ pos 0)
        × (s'.listener ≡ begun.listener)
        × (s'.world ≡ (two_at_once.connect connect (pos 3) some_address (1 ∷ [])).1)
        × (((two_at_once.connect connect (pos 3) some_address (1 ∷ [])).0 ==ℤ minus_one) ≡ false))
      (λ s'.
        (s'.status ≡ tb_aborting)
        × (((two_at_once.connect connect (pos 3) some_address (1 ∷ [])).0 ==ℤ minus_one) ≡ true)
        × (s'.total_tx_rx ≡ pos 0))
      (tb_connect two_at_once begun)
tb_connect-Ends_example =
    tb_connect-Ends two_at_once some_address begun (tcp_client-IsTcpClient five) refl
