-- ===== src/Testbed/Start/Tests.antt =====
-- A client of src/tb_testbed.c that is started.
use fastuserprotocol.Common.{ℕ, ◌≡◌, refl, none, inr, List, []}
use fastuserprotocol.Common.Int.{minus_one}
use fastuserprotocol.Os.{Ends}
use fastuserprotocol.Os.Sample.{two_at_once}
use fastuserprotocol.Listener.Net.{State}
use fastuserprotocol.Listener.Net.Laws.{IsAborted}
use fastuserprotocol.Listener.Sample.{tcp_client}
use fastuserprotocol.Testbed.Start.{start_up, runs_client}
use fastuserprotocol.Testbed.Start.Laws.{Started, HasOptions, start_up-Started}

abbrev parsed : State (List ℕ)
parsed = record {
  listener = record (tcp_client []) { sock_d = minus_one; addr_info = none };
  world = [];
}

start_up-Started_example :
    Ends
      (λ th t.
        (th ≡ runs_client)
        × Started two_at_once (λ a w. inr (3, refl)) 3 t
        × HasOptions two_at_once (λ a w. inr (3, refl)) 3 parsed.options t)
      (IsAborted two_at_once)
      (start_up two_at_once parsed)
start_up-Started_example =
    start_up-Started two_at_once (λ a w. inr (3, refl)) 3 parsed
      (record {
        protocol = refl;
        e_type = refl;
        calls = record {
          f_connect = refl;
          f_send = refl;
          f_close = refl;
          f_error = refl;
          callbacks = refl;
        };
        f_sock = refl;
        total = refl;
        bufsize = refl;
      })
