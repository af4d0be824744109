-- ===== src/Endpoint/Tests.antt =====
-- The thread of a client of src/tb_endpoint.c that makes its data itself.
use fastuserprotocol.Common.{ℕ, ◌≡◌, refl, false, Option, none, some, List, [], ◌∷◌, arith}
use fastuserprotocol.Common.Int.{ℤ, pos, minus_one, to_u64-minus_one}
use fastuserprotocol.Os.{Run, ok, Ends}
use fastuserprotocol.Os.Sample.{two_at_once, taken_by, some_address, two_at_once-SendsBytes}
use fastuserprotocol.Listener.Net.{State}
use fastuserprotocol.Listener.Sample.{tcp_client}
use fastuserprotocol.Epoll.{TbEpoll}
use fastuserprotocol.TestFile.{
  Files, tb_create_test_file, tb_load_random_file, tb_create_random, write_random, random_bytes,
}
use fastuserprotocol.Udp.Client.{Outgoing}
use fastuserprotocol.Udt.{Udt}
use fastuserprotocol.Endpoint.{Drivers, tb_client}
use fastuserprotocol.Endpoint.Laws.{Finished, tb_client-Finished}

-- No file can be read, and every random number is 7.
abbrev empty_disk : Files (List ℕ)
empty_disk = record {
  fopen_read = λ path w. (none, w);
  fopen_write = λ path w. (some 2, w);
  fseek_end = λ fd w. (pos 0, w);
  fseek_start = λ fd w. (pos 0, w);
  fread = λ fd n w. ([], w);
  fwrite = λ fd bytes w. (0, w);
  rand = λ w. (263, w);
}

abbrev idle : Outgoing (List ℕ)
idle = record {
  outq = λ fd w. (some (pos 0), w);
  would_block = λ w. false;
  epoll_wait = λ e events most time w. (pos 0, (events, w));
}

abbrev no_events : Option TbEpoll
no_events = some (record { e_id = pos 5; w_time = pos 50; max_events = pos 5; events = [] })

abbrev library : Udt (List ℕ)
library = record { udt_getlasterror_code = λ w. pos 0; udt_cleanup = λ w. w }

abbrev fails : State (List ℕ) → Run (State (List ℕ)) ℤ
fails s = ok minus_one s

abbrev no_drivers : Drivers (List ℕ)
no_drivers = record {
  tb_utp_client = fails;
  tb_utp_m_client = fails;
  tb_stream_m_client = fails;
  tb_udp_m_client = fails;
  tb_udt_m_client = fails;
  tb_utp_server = fails;
  tb_udp_m_server = fails;
  tb_stream_m_server = fails;
  tb_udt_m_server = fails;
}

-- Three bytes, which are still to be made.
abbrev begun : State (List ℕ)
begun = record {
  listener = record (tcp_client (7 ∷ 7 ∷ 7 ∷ [])) { contents = none };
  world = 9 ∷ [];
}

begun_data :
    tb_create_test_file empty_disk none (pos 3) (9 ∷ [])
    ≡ ok (some (7 ∷ 7 ∷ 7 ∷ []), pos 3) (9 ∷ [])
unfolding tb_create_test_file tb_load_random_file tb_create_random write_random random_bytes
begun_data = rw to_u64-minus_one refl

tb_client-Finished_example :
    Ends
      (λ _ _. ⊥)
      (Finished two_at_once empty_disk idle no_events library no_drivers taken_by
        two_at_once-SendsBytes
        (7 ∷ 7 ∷ 7 ∷ [])
        3
        3
        some_address
        (9 ∷ []))
      (tb_client two_at_once empty_disk idle no_events library no_drivers 4 begun)
tb_client-Finished_example =
    tb_client-Finished two_at_once empty_disk idle no_events library no_drivers taken_by
      two_at_once-SendsBytes (7 ∷ 7 ∷ 7 ∷ []) 3 3 some_address 4 begun (9 ∷ [])
      (record {
        protocol = refl;
        e_type = refl;
        calls = record {
          f_connect = refl;
          f_send = refl;
          f_close = refl;
          f_error = refl;
          callbacks = refl;
        };
        total = refl;
        bufsize = refl;
        sock_d = refl;
        addr_info = refl;
      })
      begun_data (omega arith) (omega arith) (omega arith)
