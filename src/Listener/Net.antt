-- ===== src/Listener/Net.antt =====
-- The network functions of src/tb_listener.c, and the ends of a thread in src/tb_testbed.c.
pub mod Laws
use fastuserprotocol.Common.{
  ℕ, Bool, true, false, not, Option, none, some, List, length, take, drop, ◌++◌, leb, if◌then◌else◌,
}
use fastuserprotocol.Common.Int.{ℤ, pos, negsuc, minus_one, ◌==ℤ◌}
use fastuserprotocol.Protocol.{Callee, TbProtocol, tb_error_value}
use fastuserprotocol.Os.{
  Os, AddrInfo, Run, ok, exited, halted, fault, pure, ◌>>=◌, ◌>>◌, get, modify, when, deref,
}
use fastuserprotocol.Timer.{TbTime, tb_start_time, tb_finish_time}
use fastuserprotocol.Session.{TbSession}
use fastuserprotocol.Listener.{
  TbListener, EndpointType, server, client, m_server, m_client, Status, Command, tb_exit,
  leaves_loop, tb_disconnected, tb_aborting, tb_exiting,
}

-- The listener that a thread works on, and the world.
pub record State (World : Type 0) : Type 0 where
  pub listener : TbListener
  pub open listener use *
  pub world : World

-- The bytes of a buffer that a call reads from: a size that reaches beyond the buffer, as a
-- negative one does, makes it undefined.
abbrev pub bytes_of : List ℕ → ℤ → Option (List ℕ)
bytes_of buff (pos n) = if leb n (length buff) then some (take n buff) else none
bytes_of buff (negsuc n) = none

-- buff + n, as a pointer into a buffer.
abbrev pub offset : List ℕ → ℤ → Option (List ℕ)
offset buff (pos n) = if leb n (length buff) then some (drop n buff) else none
offset buff (negsuc n) = none

-- What a buffer holds after bytes are written to its start.
abbrev pub overwrite : List ℕ → List ℕ → List ℕ
overwrite bytes buff = bytes ++ drop (length bytes) buff

module _ {World : Type 0} (os : Os World) where
  abbrev pub Cmd : Type 0 → Type 0
  Cmd A = State World → Run (State World) A

  -- A call of the system, as a command.
  abbrev pub call : {A : Type 0} → (World → A × World) → Cmd A
  call f s = let r = f s.world in ok r.0 (record s { world = r.1 })

  abbrev pub do_call : (World → World) → Cmd (Unit {0})
  do_call f s = ok tt (record s { world = f s.world })

  abbrev pub set_listener : (TbListener → TbListener) → Cmd (Unit {0})
  set_listener f s = ok tt (record s { listener = f s.listener })

  abbrev pub set_status : Status → Cmd (Unit {0})
  set_status st = set_listener λ l. record l { status = st }

  abbrev pub start_transfer : Cmd (Unit {0})
  start_transfer s =
      let r = tb_start_time os s.transfer_time s.world in
      ok tt (record { listener = record s.listener { transfer_time = r.0 }; world = r.1 })

  abbrev pub finish_transfer : Cmd (Unit {0})
  finish_transfer s =
      let r = tb_finish_time os s.transfer_time s.world in
      ok tt (record { listener = record s.listener { transfer_time = r.0 }; world = r.1 })

  abbrev pub start_connect : Cmd (Unit {0})
  start_connect s =
      let r = tb_start_time os s.connect_time s.world in
      ok tt (record { listener = record s.listener { connect_time = r.0 }; world = r.1 })

  abbrev pub finish_connect : Cmd (Unit {0})
  finish_connect s =
      let r = tb_finish_time os s.connect_time s.world in
      ok tt (record { listener = record s.listener { connect_time = r.0 }; world = r.1 })

  -- listener->protocol->f_close(fd).
  abbrev pub close_by_table : ℤ → Cmd (Unit {0})
  close_by_table fd s = elim s.protocol.f_close [
    | none ↦ fault
    | some f ↦ do_call (os.close f fd) s
  ]

  abbrev end_thread : Status → {A : Type 0} → Cmd A
  end_thread st s = exited (record s { listener = record s.listener { status = st } })

  -- tb_exit, the function.
  unfoldable pub tb_exit_thread : {A : Type 0} → Cmd A
  tb_exit_thread = end_thread tb_exiting

  -- tb_abort, the function: it never returns.
  unfoldable pub tb_abort_thread : {A : Type 0} → Cmd A
  tb_abort_thread s =
      if s.sock_d ==ℤ minus_one
      then end_thread tb_aborting s
      else ((close_by_table s.sock_d >> set_status tb_disconnected) >>= λ _. end_thread tb_aborting)
          s

  -- listener->f_abort(listener).
  unfoldable pub f_abort : {A : Type 0} → Cmd A
  unfolding tb_abort_thread
  f_abort s = if s.callbacks_set then tb_abort_thread s else fault

  -- SIGINT: sig_action runs in any thread, at any time. Its effect is seen where the command is
  -- read, and is put there.
  abbrev pub sig_action : Cmd (Unit {0})
  sig_action s =
      let s' = record s { listener = record s.listener { command = tb_exit } } in
      elim s.e_type [
        | server ↦ do_call (os.shutdown s.sock_d) s'
        | client ↦ do_call (os.shutdown s.sock_d) s'
        | _ ↦ ok tt s'
      ]

  unfoldable pub read_command : Cmd Command
  read_command = do hit ← call os.interrupted; when hit sig_action; s ← get; pure s.command

  unfoldable pub listen_by : Option Callee → Cmd ℤ
  unfolding f_abort
  listen_by none s = fault
  listen_by (some f) s =
      (call (os.listen f s.sock_d 10) >>= λ rc. if rc ==ℤ minus_one then f_abort else pure rc) s

  unfoldable pub tb_listen : Cmd ℤ
  unfolding listen_by
  tb_listen s = listen_by s.protocol.f_listen s

  -- The printing after the loop reads the address that was found.
  unfoldable pub tb_resolve_address : Cmd ℤ
  unfolding f_abort
  tb_resolve_address s =
      (call (os.getaddrinfo s.bind_address s.bind_port s.protocol.type) >>= λ found. elim found [
        | none ↦ f_abort
        | some info ↦ set_listener (λ l. record l { addr_info = some info }) >> pure (pos 0)
      ])
        s

  unfoldable pub tb_create_socket : Cmd ℤ
  unfolding f_abort
  tb_create_socket s = elim s.protocol.f_sock [
    | none ↦ fault
    | some f ↦ elim s.addr_info [
      | none ↦ fault
      | some info ↦
          (call (os.socket f info) >>= λ fd.
          set_listener (λ l. record l { sock_d = fd })
          >> (if fd ==ℤ minus_one then f_abort else pure (pos 0)))
            s
    ]
  ]

  connect_by : Option Callee → Option AddrInfo → Cmd ℤ
  unfolding f_abort
  connect_by none info s = fault
  connect_by (some f) none s = fault
  connect_by (some f) (some info) s =
      (call (os.connect f s.sock_d info) >>= λ rc.
      if rc ==ℤ minus_one then f_abort else pure (pos 0))
        s

  unfoldable pub tb_connect : Cmd ℤ
  unfolding connect_by
  tb_connect s = connect_by s.protocol.f_connect s.addr_info s

  unfoldable pub tb_bind : Cmd ℤ
  unfolding f_abort
  tb_bind s = elim s.protocol.f_bind [
    | none ↦ fault
    | some f ↦ elim s.addr_info [
      | none ↦ fault
      | some info ↦
          (call (os.bind f s.sock_d info) >>= λ rc.
          if rc ==ℤ minus_one then f_abort else pure (pos 0))
            s
    ]
  ]

  -- if(listener->protocol->f_error(value, errno) != 0) listener->f_abort(listener);
  unfoldable pub judge_error : ℤ → Cmd (Unit {0})
  unfolding f_abort
  judge_error value s = elim s.protocol.f_error [
    | none ↦ fault
    | some f ↦ elim (tb_error_value f value (os.errno_again s.world)) [
      | none ↦ fault
      | some verdict ↦ if verdict ==ℤ pos 0 then ok tt s else f_abort s
    ]
  ]

  -- A call through `f_send`, with the bytes that it reads.
  send_by : Option Callee → Option (List ℕ) → Cmd ℤ
  unfolding judge_error
  send_by none bytes s = fault
  send_by (some f) none s = fault
  send_by (some f) (some bytes) s =
      (call (os.send f s.sock_d bytes) >>= λ sent.
      if sent ==ℤ minus_one then judge_error sent >> pure (pos 0) else pure sent)
        s

  unfoldable pub tb_send_data : List ℕ → ℤ → Cmd ℤ
  unfolding send_by
  tb_send_data buff size s = send_by s.protocol.f_send (bytes_of buff size) s

  unfoldable pub recv_by : Option Callee → TbSession → Cmd TbSession
  unfolding judge_error
  recv_by none session s = fault
  recv_by (some f) session s =
      let r = os.recv f session.sock_d session.data_size s.world in
      let got = record session { last_trans = r.0; contents = overwrite r.1 session.contents } in
      (do_call (λ _. r.2) >> when (r.0 ==ℤ minus_one) (judge_error r.0) >> pure got) s

  -- The session is the one that the caller holds; it comes back with what was read.
  unfoldable pub tb_recv_data : TbSession → Cmd TbSession
  unfolding recv_by
  tb_recv_data session s = recv_by s.protocol.f_recv session s

  -- The address that the last datagram came from stays with the session and is not modelled.
  unfoldable pub recv_from_by : Option Callee → TbSession → Cmd TbSession
  unfolding f_abort
  recv_from_by none session s = fault
  recv_from_by (some f) session s =
      let r = os.recv f s.sock_d session.data_size s.world in
      let got = record session { last_trans = r.0; contents = overwrite r.1 session.contents } in
      (do_call (λ _. r.2) >> (if r.0 ==ℤ minus_one then f_abort else pure got)) s

  unfoldable pub tb_recv_from : TbSession → Cmd TbSession
  unfolding recv_from_by
  tb_recv_from session s = recv_from_by s.protocol.f_recfrom session s

  unfoldable pub send_to_by : Option Callee → Option (List ℕ) → Cmd ℤ
  unfolding f_abort
  send_to_by none bytes s = fault
  send_to_by (some f) none s = fault
  send_to_by (some f) (some bytes) s =
      (call (os.send f s.sock_d bytes) >>= λ rc. if rc ==ℤ minus_one then f_abort else pure (pos 0))
        s

  unfoldable pub tb_send_to : TbSession → Cmd ℤ
  unfolding send_to_by
  tb_send_to session s =
      send_to_by s.protocol.f_sendto (bytes_of session.contents (pos session.data_size)) s
