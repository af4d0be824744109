-- ===== src/Os/Sample.antt =====
-- A system for the tests: its world is the list of the bytes that it has taken.
use Prim.Native.Nat.{min}
use fastuserprotocol.Common.{
  ℕ, refl, inr, false, some, List, [], ◌++◌, arith, length, length-drop, drop, take,
}
use fastuserprotocol.Common.Int.{ℤ, pos}
use fastuserprotocol.Protocol.{recv, send, sock_stream}
use fastuserprotocol.Os.{Os, AddrInfo}
use fastuserprotocol.Os.Contract.{ReceivesBytes, SendsBytes}

abbrev pub some_address : AddrInfo
some_address = record {
  ai_family = pos 2;
  ai_socktype = sock_stream;
  ai_protocol = pos 6;
  ai_addr = 7;
}

-- A socket takes at most two bytes at a time, everything else succeeds, and the clock stands.
abbrev pub two_at_once : Os (List ℕ)
two_at_once = record {
  socket = λ f a w. (pos 3, w);
  bind = λ f fd a w. (pos 0, w);
  connect = λ f fd a w. (pos 0, w);
  listen = λ f fd n w. (pos 0, w);
  accept = λ f fd w. (pos 4, w);
  send = λ f fd bytes w. (pos (min 2 (length bytes)), w ++ take (min 2 (length bytes)) bytes);
  recv = λ f fd n w. (pos 0, [], w);
  close = λ f fd w. w;
  shutdown = λ fd w. w;
  setsockopt = λ fd o v w. (pos 0, w);
  getsockopt = λ fd o w. (some (pos 4096), w);
  tcp_info = λ fd w. (some 2, w);
  udt_perfmon = λ fd w. (some (pos 1, pos 0), w);
  getaddrinfo = λ a p t w. (some some_address, w);
  errno_again = λ w. false;
  clock_gettime = λ w. (record { tv_sec = 1; tv_nsec = 5 }, w);
  interrupted = λ w. (false, w);
}

abbrev pub taken_by : ℤ → List ℕ → List ℕ
taken_by fd w = w

pub two_at_once-SendsBytes : SendsBytes two_at_once send taken_by
two_at_once-SendsBytes = record {
  takes = λ fd bytes w. inr (min 2 (length bytes), refl, omega arith, (λ h. omega arith), refl);
  connecting = λ g fd d a w. refl;
  reading_clock = λ fd w. refl;
  closing = λ g fd d w. refl;
}

-- The world is what the peer has still to send; a receive hands over as much as fits.
abbrev pub peer_sends : Os (List ℕ)
peer_sends = record two_at_once {
  recv = λ f fd n w. (pos (min n (length w)), take (min n (length w)) w, drop (min n (length w)) w);
}

abbrev pub to_come : ℤ → List ℕ → ℕ
to_come fd w = length w

pub peer_sends-ReceivesBytes : ReceivesBytes peer_sends recv to_come
peer_sends-ReceivesBytes = record {
  answers = λ fd n w room.
      inr (
        min n (length w),
        refl,
        omega (arith, length-drop (min n (length w)) w),
        (λ h. omega arith),
      );
  checking_signals = λ fd w. refl;
  reading_clock = λ fd w. refl;
}
