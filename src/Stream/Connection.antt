-- ===== src/Stream/Connection.antt =====
-- tb_stream_connection of src/tb_stream.c: the thread of one of the connections of a client. The
-- thread of tb_udt_m_client, in src/tb_udt.c, does the same with other calls, so that the functions
-- take the calls that connect and send.
pub mod Laws
mod Tests
pub mod Finished
use fastuserprotocol.Common.{
  ℕ, zero, suc, ◌+◌, ◌-◌, ◌%◌, ◌^◌, Bool, true, false, Option, none, some, List, ltb, if◌then◌else◌,
}
use fastuserprotocol.Common.Int.{ℤ, pos, minus_one, ◌+ℤ◌, ◌==ℤ◌, ltb_ℤ, to_int, to_u64}
use fastuserprotocol.Protocol.{Callee, connect, send}
use fastuserprotocol.Os.{Os, AddrInfo, Run, ok, fault, out_of_fuel, pure, ◌>>=◌, ◌>>◌}
use fastuserprotocol.Timer.{TbTime, tb_start_time, tb_finish_time}
use fastuserprotocol.Session.{TbSession, SessionStatus, session_connected, session_complete}
use fastuserprotocol.Listener.Net.{bytes_of, offset}

-- The session that a thread works on, and the world.
pub record Conn (World : Type 0) : Type 0 where
  pub session : TbSession
  pub open session use *
  pub world : World

-- session->data + session->total_bytes, and `sz` bytes from there on.
abbrev pub slice_from : Option (List ℕ) → ℤ → Option (List ℕ)
slice_from none sz = none
slice_from (some bytes) sz = bytes_of bytes sz

abbrev pub slice : TbSession → ℤ → Option (List ℕ)
slice c sz = slice_from (offset c.contents c.total_bytes) sz

-- The comparison and the difference are computed as unsigned words, and the difference is then an
-- int.
abbrev pub has_more : TbSession → Bool
has_more c = ltb (to_u64 c.total_bytes) c.data_size

abbrev pub send_size : TbSession → ℤ → ℤ
send_size c sz =
    let rmbytes = to_int (pos ((c.data_size + 2 ^ 64 - to_u64 c.total_bytes) % 2 ^ 64)) in
    if ltb_ℤ rmbytes c.pack_size then rmbytes else sz

abbrev pub put_connect : TbTime → TbSession → TbSession
put_connect t c = record c { connect_t = some t }

abbrev pub put_transfer : TbTime → TbSession → TbSession
put_transfer t c = record c { transfer_t = some t }

module _ {World : Type 0} (os : Os World) where
  abbrev pub Act : Type 0 → Type 0
  Act A = Conn World → Run (Conn World) A

  abbrev pub set_session : (TbSession → TbSession) → Act (Unit {0})
  set_session f s = ok tt (record s { session = f s.session })

  unfoldable pub start_time : Option TbTime → (TbTime → TbSession → TbSession) → Act (Unit {0})
  start_time none put s = fault
  start_time (some t) put s =
      let r = tb_start_time os t s.world in
      ok tt (record { session = put r.0 s.session; world = r.1 })

  unfoldable pub finish_time : Option TbTime → (TbTime → TbSession → TbSession) → Act (Unit {0})
  finish_time none put s = fault
  finish_time (some t) put s =
      let r = tb_finish_time os t s.world in
      ok tt (record { session = put r.0 s.session; world = r.1 })

  unfoldable pub connect_session : Callee → Option AddrInfo → Act ℤ
  connect_session f none s = fault
  connect_session f (some info) s =
      let r = os.connect f s.sock_d info s.world in ok r.0 (record s { world = r.1 })

  unfoldable pub send_slice : Callee → Option (List ℕ) → Act ℤ
  send_slice f none s = fault
  send_slice f (some bytes) s =
      let r = os.send f s.sock_d bytes s.world in ok r.0 (record s { world = r.1 })

  abbrev pub count_sent : ℤ → Act (Unit {0})
  count_sent rc = set_session λ c. record c { total_bytes = c.total_bytes +ℤ rc }

  -- The loop; it answers -1 if the thread is to return.
  unfoldable pub connection_loop : Callee → ℕ → ℤ → Act ℤ
  unfolding send_slice
  connection_loop f zero sz s = out_of_fuel
  connection_loop f (suc fuel) sz s =
      let size = send_size s.session sz in
      (if has_more s.session
          then send_slice f (slice s.session size) >>= (λ rc.
            if rc ==ℤ minus_one
            then pure minus_one
            else count_sent rc >> connection_loop f fuel size)
          else pure (pos 0))
        s

  -- What follows the connect.
  unfoldable pub transfer : Callee → ℕ → Act ℤ
  unfolding start_time finish_time connection_loop
  transfer f fuel s =
      (finish_time s.connect_t put_connect
          >> (set_session (λ c. record c { status = session_connected })
              >> (start_time s.transfer_t put_transfer
                  >> (connection_loop f fuel s.pack_size >>= λ rc.
                      if rc ==ℤ minus_one then pure minus_one else λ u.
                      (finish_time u.transfer_t put_transfer
                          >> (set_session (λ c. record c { status = session_complete })
                              >> pure (pos 0)))
                        u))))
        s

  -- The return value of the thread.
  unfoldable pub connection_by : Callee → Callee → ℕ → Act ℤ
  unfolding start_time connect_session transfer
  connection_by g f fuel s =
      (start_time s.connect_t put_connect
          >> (connect_session g s.addr_info >>= λ rc.
              if rc ==ℤ minus_one then pure minus_one else transfer f fuel))
        s

  pub tb_stream_connection : ℕ → Act ℤ
  unfolding connection_by
  tb_stream_connection fuel s = connection_by connect send fuel s
