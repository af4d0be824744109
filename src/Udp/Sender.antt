-- ===== src/Udp/Sender.antt =====
-- tb_udp_m_client_conn of src/tb_udp.c: the thread of one of the sessions of a client for UDP.
pub mod Laws
pub mod Posted
mod Tests
use fastuserprotocol.Common.{
  ℕ, zero, suc, ◌+◌, ◌-◌, ◌%◌, ◌^◌, Option, none, some, List, [], ◌∷◌, ltb, if◌then◌else◌,
}
use fastuserprotocol.Common.Int.{ℤ, pos, minus_one, ◌==ℤ◌, ltb_ℤ, to_int, to_u64}
use fastuserprotocol.Protocol.{connect}
use fastuserprotocol.Os.{Os, ok, fault, out_of_fuel, pure, ◌>>=◌, ◌>>◌}
use fastuserprotocol.Session.{TbSession, session_connected, session_complete}
use fastuserprotocol.Listener.Net.{offset}
use fastuserprotocol.Stream.Connection.{
  Act, slice_from, has_more, put_transfer, set_session, start_time, finish_time, connect_session,
  count_sent,
}
use fastuserprotocol.Udp.{Messages, Piece, number, run}

-- vec[2].iov_len: what is left, if it is less than a packet, compared as unsigned words.
abbrev pub piece_length : TbSession → ℕ
piece_length c =
    let rest = (c.data_size + 2 ^ 64 - to_u64 c.total_bytes) % 2 ^ 64 in
    if ltb rest (to_u64 c.pack_size) then rest else to_u64 c.pack_size

-- The two numbers of the header, and the bytes.
abbrev pub with_header : ℤ → ℕ → List ℕ → List Piece
with_header id len bytes = number id ∷ number (to_int (pos len)) ∷ run bytes ∷ []

abbrev pub message_of : ℤ → ℕ → Option (List ℕ) → Option (List Piece)
message_of id len none = none
message_of id len (some bytes) = some (with_header id len bytes)

-- The message whose bytes start at session->data + sent; `none` if they reach beyond the data.
abbrev pub message_at : TbSession → ℤ → Option (List Piece)
message_at c sent =
    let len = piece_length c in message_of c.id len (slice_from (offset c.contents sent) (pos len))

module _ {World : Type 0} (os : Os World) (msgs : Messages World) where
  unfoldable pub post : Option (List Piece) → Act os ℤ
  post none s = fault
  post (some m) s = let r = msgs.sendmsg s.sock_d m s.world in ok r.0 (record s { world = r.1 })

  -- The loop, with what the send before answered. It answers the message that was sent last, or
  -- `none` if the thread is to return.
  unfoldable pub sender_loop : ℕ → ℤ → Act os (Option (List Piece))
  unfolding post
  sender_loop zero sent s = out_of_fuel
  sender_loop (suc fuel) sent s =
      let m = message_at s.session sent in
      (post m >>= λ rc.
      if rc ==ℤ minus_one
      then pure none
      else count_sent os rc >> λ t. if has_more t.session then sender_loop fuel rc t else ok m t)
        s

  -- The last message is sent once more.
  unfoldable pub end_sending : Option (List Piece) → Act os ℤ
  unfolding post
  end_sending none s = ok minus_one s
  end_sending (some m) s =
      (finish_time os s.transfer_t put_transfer
          >> (post (some m) >>= λ _.
              set_session os (λ c. record c { status = session_complete }) >> pure (pos 0)))
        s

  -- What follows the connect.
  unfoldable pub send_all : ℕ → Act os ℤ
  unfolding sender_loop end_sending
  send_all fuel s =
      (finish_time os s.transfer_t put_transfer
          >> (set_session os (λ c. record c { status = session_connected }) >> λ t.
              (start_time os t.transfer_t put_transfer
                  >> (sender_loop fuel (pos 0) >>= end_sending))
                t))
        s

  -- The return value of the thread. A connect that answers less than 0 answers -1.
  unfoldable pub tb_udp_m_client_conn : ℕ → Act os ℤ
  unfolding send_all
  tb_udp_m_client_conn fuel s =
      (start_time os s.transfer_t put_transfer
          >> (connect_session os connect s.addr_info >>= λ rc.
              if ltb_ℤ rc (pos 0) then pure minus_one else send_all fuel))
        s
