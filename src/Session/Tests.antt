-- ===== src/Session/Tests.antt =====
-- Runs of the list of src/tb_session.c, and of the threads that count in it.
use fastuserprotocol.Common.{
  Option, ◌↔◌, ℕ, ◌≡◌, refl, none, some, [], ◌∷◌, arith, ◌==◌, if◌then◌else◌,
}
use fastuserprotocol.Common.Int.{pos, ◌+ℤ◌, ◌-ℤ◌}
use fastuserprotocol.Os.{ok}
use fastuserprotocol.Stats.{tb_create_stats}
use fastuserprotocol.Session.{
  TbSession, Store, Sessions, tb_create_session, tb_session_add_to, tb_session_add,
  tb_session_list_search,
}
use fastuserprotocol.Session.Create.{
  tb_create_session_full, IsResolved, tb_create_session_full-IsResolved,
}
use fastuserprotocol.Protocol.{sock_stream}
use fastuserprotocol.Os.Sample.{two_at_once, some_address}
use fastuserprotocol.Session.Chain.{IsList, IsFresh}
use fastuserprotocol.Session.Laws.{
  IdsLe, id_at, tb_session_list_search-first_with, tb_session_add_to-IsList, tb_session_add-search,
}
use fastuserprotocol.Session.Race.{dec, System, returned, start, Reach, update_lost}

-- Two sessions at the addresses 1 and 2, the first in the list under the number 0.
abbrev first : TbSession
first = record tb_create_session { id = pos 0 }

abbrev second : TbSession
second = record tb_create_session { id = pos 9 }

abbrev two : Store
two a = if a == 1 then some first else if a == 2 then some second else none

abbrev one_listed : Sessions
one_listed = record {
  list = record {
    current_max_id = pos 0;
    num_sessions = 1;
    start = 1;
    end = 1;
    num_active_conn = pos 0;
  };
  store = two;
}

one_listed-IsList : IsList one_listed (1 ∷ [])
one_listed-IsList = record {
  chain = (refl, omega arith, (first, tb_create_stats, refl, refl, refl, refl));
  distinct = (refl, tt);
  last = refl;
  count = refl;
}

second-IsFresh : IsFresh two 2 second tb_create_stats
second-IsFresh = record {
  ne_null = omega arith;
  at = refl;
  stats = refl;
  n_session = refl;
  n_stats = refl;
}

tb_session_list_search-first_with_example : tb_session_list_search one_listed (pos 0) ≡ ok 1 tt
tb_session_list_search-first_with_example =
    tb_session_list_search-first_with one_listed (1 ∷ []) (pos 0) one_listed-IsList

tb_session_add_to-IsList_example :
    (s' : Sessions) × (tb_session_add_to 2 one_listed ≡ ok tt s')
    × IsList s' (1 ∷ 2 ∷ [])
    × ((a : ℕ) → id_at s'.store a ≡ id_at two a)
    × (s'.current_max_id ≡ pos 0)
tb_session_add_to-IsList_example =
    tb_session_add_to-IsList one_listed (1 ∷ []) 2 second tb_create_stats one_listed-IsList
      second-IsFresh refl

one_listed-IdsLe : IdsLe two (pos 0) (1 ∷ [])
one_listed-IdsLe = ((λ i e. ground arith), tt)

tb_session_add-search_example :
    (s' : Sessions) × (tb_session_add 2 one_listed ≡ ok tt s')
    × IsList s' (1 ∷ 2 ∷ [])
    × (s'.current_max_id ≡ pos 1)
    × IdsLe s'.store s'.current_max_id (1 ∷ 2 ∷ [])
    × (tb_session_list_search s' (pos 1) ≡ ok 2 tt)
unfolding ◌+ℤ◌
tb_session_add-search_example =
    tb_session_add-search one_listed (1 ∷ []) 2 second tb_create_stats one_listed-IsList
      second-IsFresh refl one_listed-IdsLe

-- Two sessions of a server that end at once, at count 2.
update_lost_example :
    (s : System) × Reach (λ _. dec) (start (pos 2)) s
    × (s.pc 0 ≡ returned (pos 1))
    × (s.pc 1 ≡ returned (pos 1))
    × (s.mem.num_active_conn ≡ pos 1)
unfolding ◌-ℤ◌
update_lost_example = update_lost dec (pos 2)

tb_create_session_full-IsResolved_example :
    let r = (tb_create_session_full two_at_once "localhost" "5000" sock_stream 0 []).0 in
    ((r ≡ none) ↔ (Option.some some_address ≡ none))
    × ((c : TbSession) → r ≡ some c → IsResolved two_at_once (some some_address) c)
tb_create_session_full-IsResolved_example =
    tb_create_session_full-IsResolved two_at_once "localhost" "5000" sock_stream 0 []
