-- ===== src/SockOpt/Laws.antt =====
-- What the setters of src/tb_sock_opt.c leave in the options and ask of the system.
use fastuserprotocol.Common.{◌≡◌, ◌≢◌, ◌↔◌, ◌⊎◌, refl, true, arith}
use fastuserprotocol.Common.Int.{ℤ, pos, minus_one, ◌==ℤ◌, eq_of_parts}
use fastuserprotocol.Protocol.{Protocol, tcp, udp, udt, a_udt, utp, e_udp, dccp}
use fastuserprotocol.Os.{Os, so_rcvbuf, so_sndbuf, so_reuseaddr}
use fastuserprotocol.SockOpt.{
  TbOptions, or_default, tb_set_bsd_sock_opts, call_udt_opts, tb_set_udt_opts, tb_set_utp_opts,
  set_opts, tb_set_sock_opt,
}

-- `new` is a size that is set, and is `old` if that was set.
abbrev pub Filled : ℤ → ℤ → Type 0
Filled old new = (new ≢ pos 0) × (old ≢ pos 0 → new ≡ old)

abbrev pub UsesL4 : Protocol → Type 0
UsesL4 p = (p ≡ udt) ⊎ (p ≡ utp)

pub record IsCompleted (o o' : TbOptions) : Type 0 where
  pub protocol : o'.protocol ≡ o.protocol
  pub control : o'.control ≡ o.control
  pub l3_r : o.protocol ≢ a_udt → Filled o.l3_r_b_size o'.l3_r_b_size
  pub l3_s : o.protocol ≢ a_udt → Filled o.l3_s_b_size o'.l3_s_b_size
  pub l4_r : UsesL4 o.protocol → Filled o.l4_r_b_size o'.l4_r_b_size
  pub l4_s : UsesL4 o.protocol → Filled o.l4_s_b_size o'.l4_s_b_size
  pub l4_kept :
      ¬ UsesL4 o.protocol → (o'.l4_r_b_size ≡ o.l4_r_b_size) × (o'.l4_s_b_size ≡ o.l4_s_b_size)

or_default-Filled : (size : ℤ) (n : ℤ) → n ≢ pos 0 → Filled size (or_default size n)
or_default-Filled size n h = ground (arith, eq_of_parts size (pos 0))

module _ {World : Type 0} (os : Os World) (fd : ℤ) where
  bsd-options : (o : TbOptions) (w : World) → (tb_set_bsd_sock_opts os o fd w).options ≡ o
  unfolding tb_set_bsd_sock_opts
  bsd-options o w = ground arith

  call_udt-options : (o : TbOptions) (w : World) → (call_udt_opts os o fd w).options ≡ o
  unfolding call_udt_opts
  call_udt-options o w = ground arith

  set_opts-IsCompleted :
      (p : Protocol) (o : TbOptions) (w : World)
      → o.protocol ≡ p
      → IsCompleted o (set_opts os p o fd w).options
  unfolding set_opts tb_set_udt_opts tb_set_utp_opts
  set_opts-IsCompleted tcp o w e = rw (bsd-options _ w) (grind (arith, or_default-Filled))
  set_opts-IsCompleted udp o w e = rw (bsd-options _ w) (grind (arith, or_default-Filled))
  set_opts-IsCompleted udt o w e = rw (call_udt-options _ w) (grind (arith, or_default-Filled))
  set_opts-IsCompleted a_udt o w e = grind (arith, or_default-Filled)
  set_opts-IsCompleted utp o w e = grind (arith, or_default-Filled)
  set_opts-IsCompleted e_udp o w e = rw (bsd-options _ w) (grind (arith, or_default-Filled))
  set_opts-IsCompleted dccp o w e = rw (bsd-options _ w) (grind (arith, or_default-Filled))

  -- Whatever the system answers, setting the options of a socket leaves the protocol and the
  -- congestion control as they were. For every protocol but aUDT both level 3 sizes are then other
  -- than 0, for UDT and uTP the level 4 sizes too, and a size that was other than 0 is unchanged;
  -- for the other protocols the level 4 sizes are unchanged.
  pub tb_set_sock_opt-IsCompleted :
      (o : TbOptions) (w : World) → IsCompleted o (tb_set_sock_opt os o fd w).options
  unfolding tb_set_sock_opt
  tb_set_sock_opt-IsCompleted o w = set_opts-IsCompleted o.protocol o w refl

  or_default_twice : (size n : ℤ) → or_default (or_default size n) n ≡ or_default size n
  or_default_twice size n = ground (arith, eq_of_parts size (pos 0))

  -- The three writes of tb_set_bsd_sock_opts, each in the world that the calls before it leave.
  abbrev pub AllWrites : TbOptions → World → Type 0
  AllWrites o w =
      let rcv = os.setsockopt fd so_rcvbuf o.l3_r_b_size w in
      let snd = os.setsockopt fd so_sndbuf o.l3_s_b_size rcv.1 in
      let got = os.getsockopt fd so_rcvbuf (os.getsockopt fd so_sndbuf snd.1).1 in
      (rcv.0 ≡ pos 0) × (snd.0 ≡ pos 0) × ((os.setsockopt fd so_reuseaddr (pos 1) got.1).0 ≡ pos 0)

  ==ℤ-true : (a b : ℤ) → (a ==ℤ b) ≡ true → a ≡ b
  ==ℤ-true a b h = eq_of_parts a b (ground arith)

  -- The setter for a BSD socket answers 0 if all three options could be written, with the sizes of
  -- the options, and only then; otherwise it answers -1.
  pub tb_set_bsd_sock_opts-rc :
      (o : TbOptions) (w : World)
      → let rc = (tb_set_bsd_sock_opts os o fd w).rc in
        ((rc ≡ pos 0) ↔ AllWrites o w) × ((rc ≡ pos 0) ⊎ (rc ≡ minus_one))
  unfolding tb_set_bsd_sock_opts
  tb_set_bsd_sock_opts-rc o w =
      let rcv = os.setsockopt fd so_rcvbuf o.l3_r_b_size w in
      let snd = os.setsockopt fd so_sndbuf o.l3_s_b_size rcv.1 in
      let got = os.getsockopt fd so_rcvbuf (os.getsockopt fd so_sndbuf snd.1).1 in
      let on = os.setsockopt fd so_reuseaddr (pos 1) got.1 in
      ground (arith, ==ℤ-true rcv.0 (pos 0), ==ℤ-true snd.0 (pos 0), ==ℤ-true on.0 (pos 0))

  -- For UDT a level 3 send size that is given never reaches the library: two options that differ
  -- only in it, both other than 0, bring the same calls, with the same answer and the same world.
  pub tb_set_udt_opts-ignores_send :
      (o : TbOptions) (a b : ℤ) (w : World)
      → a ≢ pos 0
      → b ≢ pos 0
      → let left = tb_set_udt_opts os (record o { l3_s_b_size = a }) fd w in
        let right = tb_set_udt_opts os (record o { l3_s_b_size = b }) fd w in
        (left.rc ≡ right.rc) × (left.world ≡ right.world)
  unfolding tb_set_udt_opts
  tb_set_udt_opts-ignores_send o a b w ha hb = ground arith
