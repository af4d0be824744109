-- ===== src/Stream/Event/Laws.antt =====
-- What tb_stream_event of src/tb_stream.c does to the list of sessions.
use fastuserprotocol.Common.{
  ℕ, ◌+◌, ◌<◌, ◌≤◌, ◌≡◌, refl, ap, ◌∙◌, false, none, List, [], ◌∷◌, ◌++◌, arith, ◌==◌,
}
use fastuserprotocol.Common.Int.{ℤ, pos, ◌+ℤ◌}
use fastuserprotocol.Protocol.{Callee}
use fastuserprotocol.Os.{Os, Run, ok}
use fastuserprotocol.Timer.{tb_start_time}
use fastuserprotocol.Stats.{Ptr, TbProtStats, tb_create_stats}
use fastuserprotocol.Session.{TbSession, Store, Sessions, write, tb_session_add}
use fastuserprotocol.Session.Chain.{has, Chain, IsList, Chain-write}
use fastuserprotocol.Session.{tb_session_list_search}
use fastuserprotocol.Session.Counts.{tb_session_add-num_active, tb_session_add-unused}
use fastuserprotocol.Os.Contract.{AcceptsPending}
use fastuserprotocol.SockOpt.Keeps.{tb_set_sock_opt-keeps}
use fastuserprotocol.Session.Laws.{IdsLe-transfer, id_at-write_ne, IdsLe, tb_session_add-search}
use fastuserprotocol.SockOpt.{TbOptions, tb_set_sock_opt}
use fastuserprotocol.Listener.{TbListener, Status, tb_listening}
use fastuserprotocol.Stream.Event.{
  Hub, accepted, sessions_of, with_list, now_connected, added_to, take_in, accept_one,
}

-- The list of the sessions is well formed, its numbers are at most its highest one, and the addresses
-- from the next one on are unused.
pub record IsGood {World : Type 0} (s : Hub World) (xs : List Ptr) : Type 0 where
  pub list : IsList (sessions_of s.listener s.store) xs
  pub ids : IdsLe s.store s.listener.session_list.current_max_id xs
  pub unused : (p : Ptr) → s.next ≤ p → s.store p ≡ none
  pub not_null : 0 < s.next

-- What is not allocated is not in the list.
pub unlisted :
    (h : Store) (q p : Ptr) (xs : List Ptr) → h q ≡ none → Chain h p xs → has q xs ≡ false
unlisted h q p [] free c = refl
unlisted h q p (x ∷ xs) free (_, _, (c, t, at, _, _, rest)) =
    ground (arith, unlisted h q c.n_session xs free rest)

module _ {World : Type 0} (os : Os World) (f_accept : Callee) (pending : ℤ → World → ℕ)
    (law : AcceptsPending os f_accept pending) where
  -- A listener with one more session than before.
  pub record IsGrown (s : Hub World) (xs : List Ptr) (q : Ptr) (t : Hub World) : Type 0 where
    pub good : IsGood t (xs ++ q ∷ [])
    pub sock_d : t.listener.sock_d ≡ s.listener.sock_d
    pub protocol : t.listener.protocol ≡ s.listener.protocol
    pub active :
        t.listener.session_list.num_active_conn ≡ s.listener.session_list.num_active_conn +ℤ pos 1
    pub pending_left : (fd : ℤ) → pending fd t.world ≡ pending fd s.world

  -- Starting the clock changes nothing of this.
  now_connected-IsGrown :
      (s : Hub World) (xs : List Ptr) (q : Ptr) (t : Hub World) (st : Status)
      → IsGrown s xs q t
      → IsGrown s xs q (now_connected os st q t)
  unfolding now_connected tb_start_time
  now_connected-IsGrown s xs q t tb_listening g = record {
    good = record {
      list = record {
        chain = g.good.list.chain;
        distinct = g.good.list.distinct;
        last = g.good.list.last;
        count = g.good.list.count;
      };
      ids = g.good.ids;
      unused = g.good.unused;
      not_null = g.good.not_null;
    };
    sock_d = g.sock_d;
    protocol = g.protocol;
    active = g.active;
    pending_left = λ fd. law.reading_clock fd t.world ∙ g.pending_left fd;
  }
  now_connected-IsGrown s xs q t _ g = g

  abbrev pub Grows : Hub World → List Ptr → Run (Hub World) Ptr → Type 0
  Grows s xs r = (q : Ptr) × (t : Hub World) × (r ≡ ok q t) × IsGrown s xs q t

  -- Setting the socket up has accepted nothing.
  pub take_in-IsGrown :
      (o : TbOptions) (w : World) (fd : ℤ) (s : Hub World) (xs : List Ptr)
      → ((d : ℤ) → pending d w ≡ pending d s.world)
      → IsGood s xs
      → Grows s xs (take_in os o w fd s)
  unfolding take_in added_to
  take_in-IsGrown o w fd s xs left g = finish (
      tb_session_add-search (sessions_of l h) xs q c c_stats
        (record {
          chain = Chain-write s.store q c xs s.listener.session_list.start out g.list.chain;
          distinct = g.list.distinct;
          last = g.list.last;
          count = g.list.count;
        })
        (record {
          ne_null = omega (arith, g.not_null);
          at = ground arith;
          stats = refl;
          n_session = refl;
          n_stats = refl;
        })
        out
        (IdsLe-transfer s.store h s.listener.session_list.current_max_id
          s.listener.session_list.current_max_id xs q out (omega arith)
          (λ a ne. id_at-write_ne s.store q c a ne) g.ids))
    where
      l : TbListener
      l = record s.listener { options = o }

      q : Ptr
      q = s.next

      c : TbSession
      c = accepted l fd

      c_stats : TbProtStats
      c_stats = record tb_create_stats { protocol = l.protocol.protocol }

      h : Store
      h = write s.store q c

      out : has q xs ≡ false
      out =
          unlisted s.store q s.listener.session_list.start xs (g.unused s.next (omega arith))
            g.list.chain

      still_unused : (p : Ptr) → q + 1 ≤ p → h p ≡ none
      still_unused p le =
          let off : (q == p) ≡ false = ground arith in rw off (g.unused p (omega arith))

      finish :
          (s' : Sessions) × (tb_session_add q (sessions_of l h) ≡ ok tt s')
            × IsList s' (xs ++ q ∷ [])
            × (s'.current_max_id ≡ s.listener.session_list.current_max_id +ℤ pos 1)
            × IdsLe s'.store s'.current_max_id (xs ++ q ∷ [])
            × (tb_session_list_search s' (s.listener.session_list.current_max_id +ℤ pos 1)
                ≡ ok q tt)
          → Grows s xs (take_in os o w fd s)
      finish (s', run, list, max, ids, found) = (
        q,
        now_connected os l.status q
            (record { listener = with_list l s'.list; store = s'.store; next = q + 1; world = w }),
        ap (added_to os l q w) run,
        now_connected-IsGrown s xs q _ l.status (record {
          good = record {
            list = record {
              chain = list.chain;
              distinct = list.distinct;
              last = list.last;
              count = list.count;
            };
            ids = ids;
            unused = λ p le. tb_session_add-unused q (sessions_of l h) s' p run (still_unused p le);
            not_null = omega arith;
          };
          sock_d = refl;
          active = ap (λ n. n +ℤ pos 1) (tb_session_add-num_active q (sessions_of l h) s' run);
          pending_left = left;
          protocol = refl;
        }),
      )

  pub accept_one-IsGrown :
      (fd : ℤ) (s : Hub World) (xs : List Ptr) → IsGood s xs → Grows s xs (accept_one os fd s)
  unfolding accept_one
  accept_one-IsGrown fd s xs g =
      let r = tb_set_sock_opt os s.listener.options fd s.world in
      take_in-IsGrown r.options r.world fd s xs
        (λ d.
          tb_set_sock_opt-keeps os (λ w. pending d w ≡ pending d s.world)
            (λ e o v w p. law.setting d e o v w ∙ p) (λ e o w p. law.getting d e o w ∙ p)
            s.listener.options fd s.world refl)
        g
