-- ===== src/Udp/Sample.antt =====
-- A system for the tests of the drivers for UDP: its world is the queue of the datagrams that wait.
use Prim.Native.Nat.{min}
use fastuserprotocol.Common.{
  ℕ, ◌+◌, refl, inr, true, false, some, List, [], ◌∷◌, ◌++◌, Bool, length,
}
use fastuserprotocol.Common.Int.{ℤ, pos, minus_one}
use fastuserprotocol.Os.{Os}
use fastuserprotocol.Os.Sample.{some_address}
use fastuserprotocol.Udp.{Messages, Piece, message_size}
use fastuserprotocol.Udp.Contract.{Datagram, part, empty, DeliversDatagrams, PostsMessages}

-- Every call succeeds, and the clock stands.
abbrev pub still : {World : Type 0} → Os World
still = record {
  socket = λ f a w. (pos 3, w);
  bind = λ f fd a w. (pos 0, w);
  connect = λ f fd a w. (pos 0, w);
  listen = λ f fd n w. (pos 0, w);
  accept = λ f fd w. (pos 4, w);
  send = λ f fd bytes w. (pos (length bytes), w);
  recv = λ f fd n w. (pos 0, [], w);
  close = λ f fd w. w;
  shutdown = λ fd w. w;
  setsockopt = λ fd o v w. (pos 0, w);
  getsockopt = λ fd o w. (some (pos 4096), w);
  tcp_info = λ fd w. (some 2, w);
  udt_perfmon = λ fd w. (some (pos 1, pos 0), w);
  getaddrinfo = λ a p t w. (some some_address, w);
  errno_again = λ w. false;
  clock_gettime = λ w. (record { tv_sec = 1; tv_nsec = 5 }, w);
  interrupted = λ w. (false, w);
}

abbrev next_datagram : ℕ → ℤ → ℤ → List Datagram → ℤ × ℤ × ℤ × List Datagram
next_datagram room id sz [] = (minus_one, id, sz, [])
next_datagram room id sz (empty ∷ ms) = (pos 0, id, sz, ms)
next_datagram room id sz (part i n len ∷ ms) = (pos (min room (8 + len)), i, n, ms)

abbrev none_waits : List Datagram → Bool
none_waits [] = true
none_waits (m ∷ ms) = false

abbrev pub queue : Messages (List Datagram)
queue = record {
  sendmsg = λ fd pieces w. (pos 0, w);
  recvmsg = λ fd room id sz w. next_datagram room id sz w;
  would_block = none_waits;
}

abbrev pub in_queue : ℤ → List Datagram → List Datagram
in_queue fd w = w

pub queue-DeliversDatagrams : DeliversDatagrams still queue in_queue
queue-DeliversDatagrams = record {
  none_left = λ fd room id sz w e. rw e (refl, refl, refl);
  empty_next = λ fd room id sz w ms e. rw e (refl, refl, refl, refl);
  part_next = λ fd room id sz w i n len ms le e. rw e (refl, refl, refl, refl);
  reading_clock = λ fd w. refl;
}

-- The world is the messages that were sent; each is sent whole.
abbrev pub outbox : Messages (List (List Piece))
outbox = record {
  sendmsg = λ fd m w. (pos (message_size m), w ++ m ∷ []);
  recvmsg = λ fd room id sz w. (minus_one, id, sz, w);
  would_block = λ w. true;
}

abbrev pub in_outbox : ℤ → List (List Piece) → List (List Piece)
in_outbox fd w = w

pub outbox-PostsMessages : PostsMessages still outbox in_outbox
outbox-PostsMessages = record {
  posts = λ fd m w. inr (refl, refl);
  connecting = λ g fd d a w. refl;
  reading_clock = λ fd w. refl;
}
