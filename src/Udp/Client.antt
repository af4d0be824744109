-- ===== src/Udp/Client.antt =====
-- tb_udp_client of src/tb_udp.c, with the acknowledgement that it waits for.
pub mod Laws
mod Tests
use fastuserprotocol.Common.{
  ℕ, zero, suc, Bool, true, false, Option, none, some, List, [], ◌∷◌, if◌then◌else◌,
}
use fastuserprotocol.Common.Int.{ℤ, pos, minus_one, ◌+ℤ◌, ◌-ℤ◌, ltb_ℤ, to_int}
use fastuserprotocol.Protocol.{send}
use fastuserprotocol.Os.{
  Os, Run, ok, exited, halted, fault, out_of_fuel, pure, ◌>>=◌, ◌>>◌, get, deref, so_sndbuf,
}
use fastuserprotocol.Epoll.{TbEpoll, TbEData, EpollEvent, Polled, tb_poll_for_events}
use fastuserprotocol.Listener.{
  TbListener, Command, tb_continue, tb_abort, tb_exit, tb_connected, tb_disconnected,
}
use fastuserprotocol.Listener.Net.{
  State, Cmd, bytes_of, call, do_call, set_listener, set_status, start_transfer, finish_transfer,
  start_connect, finish_connect, close_by_table, tb_connect, tb_abort_thread, read_command,
}
use fastuserprotocol.Stream.Client.{rest_of, close_client}

-- The calls that this client makes beyond `Os`.
pub record Outgoing (World : Type 0) : Type 0 where
  -- ioctl with TIOCOUTQ: how many bytes of the socket have not gone out yet; `none` is an error.
  pub outq : ℤ → World → Option ℤ × World
  pub would_block : World → Bool
  -- As in Epoll: the descriptor, the array, the most events, the time to wait.
  pub epoll_wait : ℤ → List EpollEvent → ℤ → ℤ → World → ℤ × (List EpollEvent × World)

abbrev pub is_exit : Command → Bool
is_exit tb_exit = true
is_exit _ = false

module _ {World : Type 0} (os : Os World) (out : Outgoing World) where
  -- The listener is told to exit.
  abbrev pub tb_udp_ack : ℕ → TbEData → State World → Run (State World) ℤ
  tb_udp_ack events data_of s =
      ok (pos 0) (record s { listener = record s.listener { command = tb_exit } })

  -- What the next packet may take: the rest, if it is less than the buffer, else what `sz` was.
  abbrev pub packet_size : TbListener → ℤ → ℤ
  packet_size l sz =
      let rest = l.file_size -ℤ l.total_tx_rx in if ltb_ℤ rest l.bufsize then to_int rest else sz

  abbrev pub packet_from : Option (List ℕ) → ℤ → Option (List ℕ)
  packet_from none sz = none
  packet_from (some bytes) sz = bytes_of bytes sz

  unfoldable pub send_packet : Option (List ℕ) → Cmd os (Unit {0})
  unfolding tb_abort_thread
  send_packet none s = fault
  send_packet (some bytes) s =
      (call os (os.send send s.sock_d bytes) >>= λ rc.
      if ltb_ℤ rc (pos 0)
      then tb_abort_thread os
      else set_listener os λ l. record l { total_tx_rx = l.total_tx_rx +ℤ rc })
        s

  -- A packet is sent if it is smaller than what is free of the send buffer.
  unfoldable pub send_if_room : ℤ → ℤ → Option ℤ → Cmd os (Unit {0})
  unfolding send_packet tb_abort_thread
  send_if_room snd_buff_sz size none s = tb_abort_thread os s
  send_if_room snd_buff_sz size (some num_bytes) s =
      (if ltb_ℤ size (snd_buff_sz -ℤ num_bytes)
          then send_packet (packet_from (rest_of os s.contents s.total_tx_rx) size)
          else pure tt)
        s

  -- The main loop.
  unfoldable pub transfer_loop : ℤ → ℕ → ℤ → Cmd os (Unit {0})
  unfolding send_if_room
  transfer_loop snd_buff_sz zero sz s = out_of_fuel
  transfer_loop snd_buff_sz (suc fuel) sz s =
      let size = packet_size s.listener sz in
      (if ltb_ℤ s.total_tx_rx s.file_size
          then (call os (out.outq s.sock_d) >>= λ num_bytes.
              send_if_room snd_buff_sz size num_bytes)
            >> transfer_loop snd_buff_sz fuel size
          else pure tt)
        s

  -- The poll, on the state of the thread.
  abbrev pub wait_on_state :
      ℤ → List EpollEvent → ℤ → ℤ → State World → ℤ × (List EpollEvent × State World)
  wait_on_state e_id events most time s =
      let r = out.epoll_wait e_id events most time s.world in
      (r.0, (r.1.0, record s { world = r.1.1 }))

  abbrev pub then_polled :
      Run (Polled (State World)) ℤ → (TbEpoll → Cmd os (Unit {0})) → Run (State World) (Unit {0})
  then_polled (ok rc p) next = next p.e_poll p.world
  then_polled (exited p) next = exited p.world
  then_polled (halted p) next = halted p.world
  then_polled fault next = fault
  then_polled out_of_fuel next = out_of_fuel

  -- An empty datagram is sent again and again, until there is an answer, or an error other than that
  -- it would have blocked.
  unfoldable pub ack_loop : ℕ → TbEpoll → Cmd os (Unit {0})
  unfolding read_command tb_poll_for_events
  ack_loop zero epoll s = out_of_fuel
  ack_loop (suc fuel) epoll s =
      (read_command os >>= λ command. if is_exit command then pure tt else λ t.
      let r = os.send send t.sock_d [] t.world in
      let u = record t { world = r.1 } in
      let failed =
        if ltb_ℤ r.0 (pos 0) then (if out.would_block r.1 then false else true) else false in
      if failed
      then ok tt u
      else then_polled
          (tb_poll_for_events wait_on_state tb_udp_ack (record { e_poll = epoll; world = u }))
          (ack_loop fuel))
        s

  unfoldable pub transfer : ℕ → Option ℤ → Cmd os (Unit {0})
  unfolding transfer_loop tb_abort_thread
  transfer fuel none s = tb_abort_thread os s
  transfer fuel (some snd_buff_sz) s =
      (start_transfer os >> (λ t. transfer_loop snd_buff_sz fuel t.bufsize t) >> finish_transfer os)
        s

  -- `epoll` is what tb_create_e_poll returns, which is read without a check: a null pointer is a
  -- fault.
  pub tb_udp_client : ℕ → ℕ → Option TbEpoll → Cmd os ℤ
  unfolding transfer ack_loop close_client tb_connect
  tb_udp_client fuel waits epoll = do
    start_connect os
    _ ← tb_connect os
    finish_connect os
    set_status os tb_connected
    e ← deref epoll
    s ← get
    size ← call os (os.getsockopt s.sock_d so_sndbuf)
    transfer fuel size
    ack_loop waits (record e { w_time = pos 50 })
    close_client os
