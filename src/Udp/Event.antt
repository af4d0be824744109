-- ===== src/Udp/Event.antt =====
-- tb_udp_event of src/tb_udp.c: the datagrams that wait are read, and counted for their sessions,
-- which are made as their numbers turn up.
pub mod Laws
pub mod Counted
pub mod Headers
mod Tests
use fastuserprotocol.Common.{
  ℕ, zero, suc, ◌+◌, Bool, Option, none, some, List, [], ◌∷◌, ◌==◌, if◌then◌else◌,
}
use fastuserprotocol.Common.Int.{ℤ, pos, minus_one, ◌+ℤ◌, ltb_ℤ}
use fastuserprotocol.Os.{Os, Run, ok, fault, out_of_fuel, exited, halted, ◌>>=◌, ◌>>◌, pure}
use fastuserprotocol.Timer.{tb_start_time}
use fastuserprotocol.Stats.{Ptr}
use fastuserprotocol.Session.{
  TbSession, Store, Sessions, write, tb_create_session, tb_session_add_to, tb_session_list_search,
}
use fastuserprotocol.Listener.{TbListener, Status, tb_connected, tb_listening, tb_exit}
use fastuserprotocol.Stream.Event.{Hub, sessions_of, with_list}
use fastuserprotocol.Udp.{Messages, Piece, run}

abbrev pub Act : Type 0 → Type 0 → Type 0
Act World A = Hub World → Run (Hub World) A

-- If the session attached to the listener leads to none, it leads to this one.
abbrev pub linked : Ptr → TbSession → TbSession
linked p c = record c { n_session = if c.n_session == 0 then p else c.n_session }

-- The message has two pieces, the numbers `id` and `sz`, so that there is room for eight bytes.
abbrev pub header_room : ℕ
header_room = 8

module _ {World : Type 0} where
  -- The new session is added to the list and counted as active.
  abbrev pub enlist : Ptr → Hub World → Run Sessions (Unit {0}) → Run (Hub World) Ptr
  enlist q s (ok _ t) =
      ok q (record s { listener = with_list s.listener t.list; store = t.store; next = q + 1 })
  enlist q s _ = fault

  unfoldable pub new_session : ℤ → Act World Ptr
  new_session id s = enlist s.next s (
      tb_session_add_to s.next
        (sessions_of s.listener (write s.store s.next (record tb_create_session { id = id }))))

  abbrev pub or_new : ℤ → Run (Unit {0}) Ptr → Act World Ptr
  or_new id (ok p _) s = if p == 0 then new_session id s else ok p s
  or_new id out_of_fuel s = out_of_fuel
  or_new id _ s = fault

  -- tb_session_list_search, and if no session exists for this id, a new one.
  unfoldable pub session_for : ℤ → Act World Ptr
  unfolding new_session
  session_for id s = or_new id (tb_session_list_search (sessions_of s.listener s.store) id) s

  abbrev pub link_current : Ptr → Option TbSession → Act World (Unit {0})
  link_current p none s = fault
  link_current p (some c) s =
      ok tt (record s { listener = record s.listener { curr_session = some (linked p c) } })

  -- session->total_bytes += rc;
  abbrev pub pay : Ptr → ℤ → Option TbSession → Act World (Unit {0})
  pay p rc none s = fault
  pay p rc (some c) s =
      ok tt (record s { store = write s.store p (record c { total_bytes = c.total_bytes +ℤ rc }) })

  unfoldable pub take_part : ℤ → ℤ → Act World (Unit {0})
  unfolding session_for
  take_part id rc = session_for id >>= λ p s.
      (link_current p s.listener.curr_session >> λ t. pay p rc (t.store p) t) s

module _ {World : Type 0} (os : Os World) (msgs : Messages World) where
  -- The first event of a listener starts its clock.
  abbrev pub first_event : Status → Hub World → Hub World
  first_event tb_listening s =
      let r = tb_start_time os s.listener.transfer_time s.world in
      record s {
        listener = record s.listener { status = tb_connected; transfer_time = r.0 };
        world = r.1;
      }
  first_event _ s = s

  -- The vector is emptied, and the two pieces that the message still has are sent as an answer.
  abbrev pub call_for_exit : Hub World → Hub World
  call_for_exit s = record s {
    listener = record s.listener { command = tb_exit };
    world = (msgs.sendmsg s.listener.sock_d (run [] ∷ run [] ∷ []) s.world).1;
  }

  -- `id` and `sz` keep what they hold where a datagram is too short to set them.
  unfoldable pub event_loop : ℕ → ℤ → ℤ → ℤ → Act World ℤ
  event_loop zero fd id sz s = out_of_fuel
  event_loop (suc fuel) fd id sz s =
      let r = msgs.recvmsg fd header_room id sz s.world in
      let t : Hub World = record s { world = r.3 } in
      if ltb_ℤ r.0 (pos 0)
      then (if msgs.would_block r.3 then ok (pos 0) t else ok minus_one t)
      else if ltb_ℤ (pos 0) r.2
      then (take_part r.1 r.0 >> event_loop fuel fd r.1 r.2) t
      else ok (pos 0) (call_for_exit t)

  -- The message is set up with the buffer of the session that is attached to the listener.
  unfoldable pub with_buffer : Option TbSession → Act World ℤ → Act World ℤ
  with_buffer none act s = fault
  with_buffer (some c) act s = act s

  unfoldable pub tb_udp_event : ℕ → ℤ → Act World ℤ
  unfolding event_loop with_buffer
  tb_udp_event fuel fd s =
      with_buffer s.listener.curr_session (event_loop fuel fd minus_one (pos 0))
        (first_event s.listener.status s)
