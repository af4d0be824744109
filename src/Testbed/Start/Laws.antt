-- ===== src/Testbed/Start/Laws.antt =====
-- What tb_start of src/tb_testbed.c has done when it creates the thread of a client.
use mathlib.Core.Path.{subst}
use fastuserprotocol.Common.{
  ℕ, ◌≡◌, ◌⊎◌, refl, sym, ap, ◌∙◌, false, inl, inr, none, some, Option, arith, Bool-cases,
}
use fastuserprotocol.Common.Int.{ℤ, pos, minus_one, ◌==ℤ◌, pos-ne_minus_one}
use fastuserprotocol.Protocol.{tcp, socket}
use fastuserprotocol.Os.{Os, AddrInfo, ok, Ends, Ends-bind, ◌>>◌, pure, when, bind-ok}
use fastuserprotocol.SockOpt.{TbOptions, tb_set_sock_opt}
use fastuserprotocol.Listener.{TbListener, client}
use fastuserprotocol.Listener.Net.{
  State, f_abort, tb_resolve_address, tb_create_socket, tb_abort_thread,
}
use fastuserprotocol.Listener.Net.Laws.{IsTcpClient, IsAborted, same_calls}
use fastuserprotocol.Endpoint.Laws.{IsStarted}
use fastuserprotocol.Testbed.Start.{
  Thread, runs_client, thread_of, socket_for, set_options, start_up,
}

-- A client for TCP as the command line leaves it.
pub record IsParsed (b : ℕ) (l : TbListener) : Type 0 where
  pub protocol : l.protocol.protocol ≡ tcp
  pub e_type : l.e_type ≡ client
  pub calls : IsTcpClient l
  pub f_sock : l.protocol.f_sock ≡ some socket
  pub total : l.total_tx_rx ≡ pos 0
  pub bufsize : l.bufsize ≡ pos b

module _ {World : Type 0} (os : Os World)
    (sockets : (a : AddrInfo) (w : World)
      → ((os.socket socket a w).0 ≡ minus_one) ⊎ ((fd : ℕ) × ((os.socket socket a w).0 ≡ pos fd)))
    (b : ℕ) where
  abbrev Parsed : State World → Type 0
  Parsed s = IsParsed b s.listener

  -- The client has an address, and the options `o` as before.
  abbrev Resolved : TbOptions → ℤ → State World → Type 0
  Resolved o rc s =
      (rc ≡ pos 0) × Parsed s × ((info : AddrInfo) × (s.addr_info ≡ some info)) × (s.options ≡ o)

  -- The client has an address and a socket.
  abbrev pub Started : State World → Type 0
  Started s = (fd : ℕ) × (info : AddrInfo) × IsStarted b fd info s.listener

  -- The options `o` have been set on the socket, by calls of which none failed, and the listener
  -- keeps what they were completed to.
  abbrev pub HasOptions : TbOptions → State World → Type 0
  HasOptions o s =
      (w : World) × (((tb_set_sock_opt os o s.sock_d w).rc ==ℤ minus_one) ≡ false)
      × (s.options ≡ (tb_set_sock_opt os o s.sock_d w).options)
      × (s.world ≡ (tb_set_sock_opt os o s.sock_d w).world)

  abbrev Opened : TbOptions → State World → Type 0
  Opened o s = Started s × (s.options ≡ o)

  resolve-Ends :
      (s : State World)
      → Parsed s
      → Ends (Resolved s.options) (IsAborted os) (tb_resolve_address os s)
  unfolding tb_resolve_address f_abort tb_abort_thread
  resolve-Ends s i =
      by_answer (os.getaddrinfo s.bind_address s.bind_port s.protocol.type s.world).0 refl
    where
      by_answer :
          (found : Option AddrInfo)
          → (os.getaddrinfo s.bind_address s.bind_port s.protocol.type s.world).0 ≡ found
          → Ends (Resolved s.options) (IsAborted os) (tb_resolve_address os s)
      by_answer none e = ground (arith, e, i.calls)
      by_answer (some info) e = rw e (
        refl,
        record {
          protocol = i.protocol;
          e_type = i.e_type;
          calls = same_calls refl refl i.calls;
          f_sock = i.f_sock;
          total = i.total;
          bufsize = i.bufsize;
        },
        (info, refl),
        refl,
      )

  abbrev with_socket : State World → AddrInfo → ℕ → State World
  with_socket s info fd = record {
    listener = record s.listener { sock_d = pos fd };
    world = (os.socket socket info s.world).1;
  }

  create_socket-run :
      (s : State World) (info : AddrInfo) (fd : ℕ)
      → s.protocol.f_sock ≡ some socket
      → s.addr_info ≡ some info
      → (os.socket socket info s.world).0 ≡ pos fd
      → tb_create_socket os s ≡ ok (pos 0) (with_socket s info fd)
  unfolding tb_create_socket
  create_socket-run s info fd sock addr e = ground (arith, sock, addr, e, pos-ne_minus_one fd)

  socket-Ends :
      (s : State World) (info : AddrInfo)
      → Parsed s
      → s.addr_info ≡ some info
      → Ends (λ _ t. Opened s.options t) (IsAborted os) (socket_for os tcp s)
  unfolding socket_for tb_create_socket f_abort tb_abort_thread
  socket-Ends s info i addr = elim (sockets info s.world) [
    | inl bad ↦ ground (arith, bad, i.calls, i.f_sock, addr)
    | inr (fd, e) ↦
        subst (Ends (λ _ t. Opened s.options t) (IsAborted os))
          (sym (
            bind-ok (tb_create_socket os) (λ rc. pure tt) s (pos 0) (with_socket s info fd)
              (create_socket-run s info fd i.f_sock addr e)))
          (
            (
              fd,
              info,
              record {
                protocol = i.protocol;
                e_type = i.e_type;
                calls = same_calls refl refl i.calls;
                total = i.total;
                bufsize = i.bufsize;
                sock_d = refl;
                addr_info = addr;
              },
            ),
            refl,
          )
  ]

  options-Ends :
      (s : State World)
      → Started s
      → Ends (λ _ t. Started t × HasOptions s.options t) (IsAborted os) (set_options os s)
  unfolding set_options tb_abort_thread
  options-Ends s (fd, info, i) =
      let r = tb_set_sock_opt os s.options s.sock_d s.world in
      elim (Bool-cases (r.rc ==ℤ minus_one)) [
        | inl bad ↦ rw (bad, when) (ground (arith, i.calls))
        | inr good ↦
            rw (good, when)
              (
                (
                  fd,
                  info,
                  record {
                    protocol = i.protocol;
                    e_type = i.e_type;
                    calls = same_calls refl refl i.calls;
                    total = i.total;
                    bufsize = i.bufsize;
                    sock_d = i.sock_d;
                    addr_info = i.addr_info;
                  },
                ),
                (s.world, good, refl, refl),
              )
      ]

  -- A client for TCP that the command line has set up, on a system whose sockets are -1 or at least
  -- 0, either aborts or gets an address and a socket, on which its options have been set without an
  -- error, and the thread that is created runs the client, with a listener as that thread's theorem
  -- wants it.
  pub start_up-Started :
      (s : State World)
      → IsParsed b s.listener
      → Ends
          (λ th t. (th ≡ runs_client) × Started t × HasOptions s.options t)
          (IsAborted os)
          (start_up os s)
  unfolding start_up
  start_up-Started s i =
      let Done = λ (th : Thread) (t : State World).
        (th ≡ runs_client) × Started t × HasOptions s.options t in
      Ends-bind (Resolved s.options) Done (IsAborted os) (tb_resolve_address os)
        (λ rc.
          when (rc ==ℤ minus_one) (tb_abort_thread os)
          >> (λ t. (socket_for os t.protocol.protocol >> set_options os) t)
          >> (λ t. ok (thread_of t.e_type) t))
        s (resolve-Ends s i)
        λ rc t g.
          let (info, addr) = g.2 in
          let Ready = λ (_ : Unit {0}) (u : State World). Started u × HasOptions s.options u in
          rw (g.0, when)
            (Ends-bind Ready Done (IsAborted os)
              (λ u. (socket_for os u.protocol.protocol >> set_options os) u)
              (λ _ u. ok (thread_of u.e_type) u) t
              (subst (λ p. Ends Ready (IsAborted os) ((socket_for os p >> set_options os) t))
                (sym g.1.protocol)
                (Ends-bind (λ _ u. Opened t.options u) Ready (IsAborted os) (socket_for os tcp)
                  (λ _. set_options os) t (socket-Ends t info g.1 addr)
                  (λ _ u h.
                    subst
                      (λ o.
                        Ends (λ _ v. Started v × HasOptions o v) (IsAborted os) (set_options os u))
                      (h.1 ∙ g.3) (options-Ends u h.0))))
              (λ _ u h. (ap thread_of h.0.2.e_type, h.0, h.1)))
