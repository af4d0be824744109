-- ===== src/Stream/Client.antt =====
-- tb_stream_client of src/tb_stream.c.
pub mod Round
pub mod Laws
mod Tests
use fastuserprotocol.Common.{ℕ, zero, suc, Option, none, some, List, if◌then◌else◌}
use fastuserprotocol.Common.Int.{ℤ, minus_one, ◌+ℤ◌, ◌-ℤ◌, ltb_ℤ, to_int}
use fastuserprotocol.Os.{Os, fault, out_of_fuel, pure, ◌>>=◌, ◌>>◌, get, when}
use fastuserprotocol.Listener.{TbListener, tb_connected, tb_disconnected}
use fastuserprotocol.Listener.Net.{
  Cmd, offset, set_listener, set_status, start_transfer, finish_transfer, start_connect,
  finish_connect, close_by_table, tb_connect, tb_send_data,
}

module _ {World : Type 0} (os : Os World) where
  -- listener->data + listener->total_tx_rx.
  abbrev pub rest_of : Option (List ℕ) → ℤ → Option (List ℕ)
  rest_of none total = none
  rest_of (some bytes) total = offset bytes total

  unfoldable pub send_from : Option (List ℕ) → ℤ → Cmd os ℤ
  send_from none sz s = fault
  send_from (some buff) sz s = tb_send_data os buff sz s

  -- rc = tb_send_data(listener, listener->data + listener->total_tx_rx, sz);
  unfoldable pub send_chunk : ℤ → Cmd os ℤ
  unfolding send_from
  send_chunk sz s = send_from (rest_of s.contents s.total_tx_rx) sz s

  -- listener->total_tx_rx += rc;
  abbrev pub count_bytes : ℤ → Cmd os (Unit {0})
  count_bytes rc = set_listener os λ l. record l { total_tx_rx = l.total_tx_rx +ℤ rc }

  -- What the next send may take: the rest, if it is less than the buffer, else what `sz` was.
  abbrev pub next_size : TbListener → ℤ → ℤ
  next_size l sz =
      let rmbytes = to_int (l.file_size -ℤ l.total_tx_rx) in
      if ltb_ℤ rmbytes l.bufsize then rmbytes else sz

  client_loop : ℕ → ℤ → Cmd os (Unit {0})
  unfolding send_chunk
  client_loop zero sz s = out_of_fuel
  client_loop (suc fuel) sz s =
      let size = next_size s.listener sz in
      when (ltb_ℤ s.total_tx_rx s.file_size)
        (send_chunk size >>= λ rc. count_bytes rc >> client_loop fuel size) s

  -- The connection is closed and the result returned.
  unfoldable pub close_client : Cmd os ℤ
  close_client = do
    s ← get
    close_by_table os s.sock_d
    set_listener os (λ l. record l { sock_d = minus_one; status = tb_disconnected })
    pure s.total_tx_rx

  -- The client is connected, and both times are taken.
  open_client : Cmd os (Unit {0})
  open_client = do
    start_connect os
    _ ← tb_connect os
    finish_connect os
    start_transfer os
    set_status os tb_connected

  pub tb_stream_client : ℕ → Cmd os ℤ
  unfolding client_loop close_client open_client
  tb_stream_client fuel = do
    open_client
    s ← get
    client_loop fuel s.bufsize
    finish_transfer os
    close_client
