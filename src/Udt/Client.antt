-- ===== src/Udt/Client.antt =====
-- tb_udt_client of src/tb_udt.c.
pub mod Round
pub mod Laws
mod Tests
use fastuserprotocol.Common.{
  ℕ, zero, suc, Bool, true, false, Option, none, some, List, if◌then◌else◌,
}
use fastuserprotocol.Common.Int.{ℤ, minus_one, ◌==ℤ◌, ltb_ℤ}
use fastuserprotocol.Protocol.{udt_send, udt_close}
use fastuserprotocol.Os.{Os, fault, out_of_fuel, pure, ◌>>=◌, ◌>>◌, get}
use fastuserprotocol.Listener.{
  Command, tb_continue, tb_abort, tb_exit, tb_connected, tb_disconnected,
}
use fastuserprotocol.Listener.Net.{
  Cmd, bytes_of, call, do_call, set_listener, set_status, start_transfer, finish_transfer,
  start_connect, finish_connect, tb_connect, tb_abort_thread, read_command,
}
use fastuserprotocol.Stream.Client.{rest_of, next_size, count_bytes}
use fastuserprotocol.Udt.{Udt}

-- Is the command TB_ABORT or TB_EXIT?
abbrev pub is_over : Command → Bool
is_over tb_continue = false
is_over tb_abort = true
is_over tb_exit = true

module _ {World : Type 0} (os : Os World) (udt : Udt World) where
  unfoldable pub send_buffer : Option (List ℕ) → Cmd os ℤ
  unfolding tb_abort_thread
  send_buffer none s = fault
  send_buffer (some bytes) s =
      (call os (os.send udt_send s.sock_d bytes) >>= λ rc.
      if rc ==ℤ minus_one then tb_abort_thread os else pure rc)
        s

  -- The first `sz` bytes from a place in the data.
  abbrev pub buffer_from : Option (List ℕ) → ℤ → Option (List ℕ)
  buffer_from none sz = none
  buffer_from (some rest) sz = bytes_of rest sz

  -- rc = udt_send(listener->sock_d, listener->data + listener->total_tx_rx, sz, 0), and its check.
  unfoldable pub send_rest : ℤ → Cmd os ℤ
  unfolding send_buffer
  send_rest sz s = send_buffer (buffer_from (rest_of os s.contents s.total_tx_rx) sz) s

  -- The command is read only while bytes are left.
  unfoldable pub upload_loop : ℕ → ℤ → Cmd os (Unit {0})
  unfolding send_rest read_command
  upload_loop zero sz s = out_of_fuel
  upload_loop (suc fuel) sz s =
      let size = next_size os s.listener sz in
      (if ltb_ℤ s.total_tx_rx s.file_size
          then read_command os >>= (λ command.
            if is_over command
            then pure tt
            else send_rest size >>= λ rc. count_bytes os rc >> upload_loop fuel size)
          else pure tt)
        s

  -- The socket is closed, and the library ended.
  unfoldable pub close_upload : Cmd os ℤ
  close_upload = do
    s ← get
    do_call os (os.close udt_close s.sock_d)
    set_listener os (λ l. record l { sock_d = minus_one; status = tb_disconnected })
    do_call os udt.udt_cleanup
    pure s.total_tx_rx

  -- The client is connected.
  unfoldable pub open_upload : Cmd os (Unit {0})
  unfolding tb_connect
  open_upload = do
    start_connect os
    _ ← tb_connect os
    finish_connect os
    set_status os tb_connected
    start_transfer os

  pub tb_udt_client : ℕ → Cmd os ℤ
  unfolding upload_loop close_upload open_upload
  tb_udt_client fuel = do
    open_upload
    s ← get
    upload_loop fuel s.bufsize
    finish_transfer os
    close_upload
