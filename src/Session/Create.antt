-- ===== src/Session/Create.antt =====
-- tb_create_session_full and tb_set_addrinfo of src/tb_session.c.
use Prim.Native.String.{String}
use fastuserprotocol.Common.{
  ℕ, ◌≡◌, ◌≢◌, refl, Bool, true, false, ◌&&◌, Option, none, some, arith, if◌then◌else◌, ltb, ◌↔◌,
}
use fastuserprotocol.Common.Int.{ℤ, pos, minus_one, ◌==ℤ◌}
use fastuserprotocol.Protocol.{SockType, sock_stream, sock_dgram, sock_dccp}
use fastuserprotocol.Os.{Os, AddrInfo}
use mathlib.Core.Path.{subst}
use fastuserprotocol.Stats.{TbProtStats, tb_create_stats}
use fastuserprotocol.Session.{TbSession, Store, tb_create_session, session_addr_res}
use fastuserprotocol.Session.Chain.{IsFresh}

-- SOCK_STREAM, SOCK_DGRAM and SOCK_DCCP.
abbrev pub sock_type_value : SockType → ℕ
sock_type_value sock_stream = 1
sock_type_value sock_dgram = 2
sock_type_value sock_dccp = 6

-- The answer, the session and the world.
pub record SetResult (World : Type 0) : Type 0 where
  pub rc : ℤ
  pub session : TbSession
  pub world : World

abbrev no_address : TbSession → Bool
no_address c = elim c.addr_info [ none ↦ true | some _ ↦ false ]

module _ {World : Type 0} (os : Os World) where
  abbrev resolved : TbSession → Option AddrInfo → World → SetResult World
  resolved c none w = record { rc = minus_one; session = c; world = w }
  resolved c (some info) w = record {
    rc = pos 0;
    session = record c { addr_info = some info; status = session_addr_res };
    world = w;
  }

  unfoldable pub tb_set_addrinfo : TbSession → SockType → World → SetResult World
  tb_set_addrinfo c type w =
      if no_address c && ltb 0 (sock_type_value type)
      then resolved c (os.getaddrinfo c.address c.port type w).0
          (os.getaddrinfo c.address c.port type w).1
      else record { rc = minus_one; session = c; world = w }

  -- A buffer of `data_size` bytes is made if that is more than 0; nothing has been written to it.
  abbrev with_buffer : ℕ → TbSession → TbSession
  with_buffer data_size c = record c {
    data_size = if ltb 0 data_size then data_size else c.data_size;
  }

  abbrev created_full : ℕ → SetResult World → Option TbSession × World
  created_full data_size r =
      if r.rc ==ℤ minus_one
      then (none, r.world)
      else (some (with_buffer data_size r.session), r.world)

  unfoldable pub tb_create_session_full :
      String → String → SockType → ℕ → World → Option TbSession × World
  unfolding tb_set_addrinfo
  tb_create_session_full addr port type data_size w =
      created_full data_size
        (tb_set_addrinfo (record tb_create_session { address = addr; port = port }) type w)

  -- A session that is resolved with the address `found`, and in no list yet.
  abbrev pub IsResolved : Option AddrInfo → TbSession → Type 0
  IsResolved found c =
      (c.status ≡ session_addr_res)
      × (c.addr_info ≡ found)
      × (c.total_bytes ≡ pos 0)
      × ((h : Store) (q : ℕ) → q ≢ 0 → h q ≡ some c → (t : TbProtStats) × IsFresh h q c t)

  abbrev Resolves : Option AddrInfo → Option TbSession → Type 0
  Resolves found none = found ≡ none
  Resolves found (some c) = IsResolved found c × (found ≢ none)

  created_full-Resolves :
      (addr port : String) (n : ℕ) (found : Option AddrInfo) (w : World)
      → Resolves found
          (created_full n
            (resolved (record tb_create_session { address = addr; port = port }) found w)).0
  created_full-Resolves addr port n none w = refl
  created_full-Resolves addr port n (some info) w = (
    (
      refl,
      refl,
      refl,
      λ h q ne at. (
        tb_create_stats,
        record { ne_null = ne; at = at; stats = refl; n_session = refl; n_stats = refl },
      ),
    ),
    ground arith,
  )

  tb_create_session_full-Resolves :
      (addr port : String) (type : SockType) (n : ℕ) (w : World)
      → Resolves (os.getaddrinfo addr port type w).0 (tb_create_session_full addr port type n w).0
  unfolding tb_create_session_full tb_set_addrinfo
  tb_create_session_full-Resolves addr port sock_stream n w =
      created_full-Resolves addr port n (os.getaddrinfo addr port sock_stream w).0
        (os.getaddrinfo addr port sock_stream w).1
  tb_create_session_full-Resolves addr port sock_dgram n w =
      created_full-Resolves addr port n (os.getaddrinfo addr port sock_dgram w).0
        (os.getaddrinfo addr port sock_dgram w).1
  tb_create_session_full-Resolves addr port sock_dccp n w =
      created_full-Resolves addr port n (os.getaddrinfo addr port sock_dccp w).0
        (os.getaddrinfo addr port sock_dccp w).1

  -- A session that is fully created has the address that was found and can be put into a list, and
  -- its status is SESSION_ADDR_RES, not SESSION_CREATED: a loop that waits while it is
  -- SESSION_CREATED, as the one of tb_stream_m_client does, does not wait. None is created exactly
  -- if no address is found.
  pub tb_create_session_full-IsResolved :
      (addr port : String) (type : SockType) (n : ℕ) (w : World)
      → let found = (os.getaddrinfo addr port type w).0 in
        let r = (tb_create_session_full addr port type n w).0 in
        ((r ≡ none) ↔ (found ≡ none)) × ((c : TbSession) → r ≡ some c → IsResolved found c)
  tb_create_session_full-IsResolved addr port type n w =
      let found = (os.getaddrinfo addr port type w).0 in
      let h = tb_create_session_full-Resolves addr port type n w in
      (
        none_made found (tb_create_session_full addr port type n w).0 h,
        λ c e. (subst (Resolves found) e h).0,
      )
    where
      none_made :
          (found : Option AddrInfo) (r : Option TbSession)
          → Resolves found r
          → (r ≡ none) ↔ (found ≡ none)
      none_made found none e = ground (arith, e)
      none_made found (some c) h = ground (arith, h.1)
