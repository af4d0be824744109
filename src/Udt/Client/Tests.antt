-- ===== src/Udt/Client/Tests.antt =====
-- A run of tb_udt_client of src/tb_udt.c, in which a signal comes in.
use fastuserprotocol.Common.{ℕ, refl, true, some, List, [], ◌∷◌, arith, ltb, length, inr}
use Prim.Native.Nat.{min}
use fastuserprotocol.Common.Int.{pos}
use fastuserprotocol.Protocol.{udt_send}
use fastuserprotocol.Os.{Os, Ends}
use fastuserprotocol.Os.Contract.{SendsBytes, SignalsSendNothing}
use fastuserprotocol.Os.Sample.{two_at_once, taken_by, some_address}
use fastuserprotocol.Listener.Net.{State}
use fastuserprotocol.Listener.Net.Laws.{IsAborted}
use fastuserprotocol.Listener.Sample.{udt_listener}
use fastuserprotocol.Udt.{Udt}
use fastuserprotocol.Udt.Client.{tb_udt_client}
use fastuserprotocol.Udt.Client.Round.{IsUploading}
use fastuserprotocol.Udt.Client.Laws.{IsUploaded, tb_udt_client-IsUploaded}

-- SIGINT comes in when more than three bytes are taken.
abbrev interrupting : Os (List ℕ)
interrupting = record two_at_once { interrupted = λ w. (ltb 3 (length w), w) }

abbrev library : Udt (List ℕ)
library = record { udt_getlasterror_code = λ w. pos 0; udt_cleanup = λ w. w }

interrupting-SendsBytes : SendsBytes interrupting udt_send taken_by
interrupting-SendsBytes = record {
  takes = λ fd bytes w. inr (min 2 (length bytes), refl, omega arith, (λ h. omega arith), refl);
  connecting = λ g fd d a w. refl;
  reading_clock = λ fd w. refl;
  closing = λ g fd d w. refl;
}

interrupting-SignalsSendNothing : SignalsSendNothing interrupting taken_by
interrupting-SignalsSendNothing = record { checking = λ fd w. refl; shutting = λ fd d w. refl }

abbrev six : List ℕ
six = 10 ∷ 20 ∷ 30 ∷ 40 ∷ 50 ∷ 60 ∷ []

-- Six bytes, three at a time, of which the socket takes two.
abbrev begun : State (List ℕ)
begun = record {
  listener = record udt_listener {
    bufsize = pos 3;
    sock_d = pos 3;
    addr_info = some some_address;
    contents = some six;
    file_size = pos 6;
    callbacks_set = true;
  };
  world = [];
}

begun-IsUploading : IsUploading six 3 3 0 begun.listener
begun-IsUploading = record {
  calls = record { f_connect = refl; f_close = refl; callbacks = refl };
  e_type = refl;
  contents = refl;
  file_size = refl;
  total = refl;
  within = omega arith;
  bufsize = refl;
  sock_d = refl;
}

tb_udt_client-IsUploaded_example :
    Ends
      (λ r t. IsUploaded six [] t.world r t)
      (IsAborted interrupting)
      (tb_udt_client interrupting library 7 begun)
tb_udt_client-IsUploaded_example =
    tb_udt_client-IsUploaded interrupting library taken_by interrupting-SendsBytes
      interrupting-SignalsSendNothing (λ fd w. refl) six 3 3 (omega arith) (omega arith)
      some_address 7 begun begun-IsUploading refl (omega arith)
