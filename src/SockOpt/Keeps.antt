-- ===== src/SockOpt/Keeps.antt =====
-- What holds of the world through the system calls of src/tb_sock_opt.c.
use fastuserprotocol.Common.{arith}
use fastuserprotocol.Common.Int.{ℤ, pos}
use fastuserprotocol.Protocol.{Protocol, udt, a_udt, utp}
use fastuserprotocol.Os.{
  Os, OptName, so_rcvbuf, so_sndbuf, so_reuseaddr, udt_rcvbuf, udt_sndbuf, udp_rcvbuf, udp_sndbuf,
}
use fastuserprotocol.SockOpt.{
  TbOptions, set_reuse, tb_set_bsd_sock_opts, fill_udt_opts, call_udt_opts, tb_set_udt_opts,
  set_opts, tb_set_sock_opt,
}

module _ {World : Type 0} (os : Os World) (P : World → Type 0)
    (sets : (fd : ℤ) (o : OptName) (v : ℤ) (w : World) → P w → P (os.setsockopt fd o v w).1)
    (gets : (fd : ℤ) (o : OptName) (w : World) → P w → P (os.getsockopt fd o w).1) where
  set_reuse-keeps : (o : TbOptions) (fd : ℤ) (w : World) → P w → P (set_reuse os o fd w).world
  unfolding set_reuse
  set_reuse-keeps o fd w p =
      sets fd so_reuseaddr (pos 1) _ (gets fd so_rcvbuf _ (gets fd so_sndbuf w p))

  bsd-keeps : (o : TbOptions) (fd : ℤ) (w : World) → P w → P (tb_set_bsd_sock_opts os o fd w).world
  unfolding tb_set_bsd_sock_opts
  bsd-keeps o fd w p =
      let rcv = sets fd so_rcvbuf o.l3_r_b_size w p in
      let snd = sets fd so_sndbuf o.l3_s_b_size _ rcv in
      let on = set_reuse-keeps o fd _ snd in ground (arith, rcv, snd, on)

  udt-keeps : (o : TbOptions) (fd : ℤ) (w : World) → P w → P (call_udt_opts os o fd w).world
  unfolding call_udt_opts
  udt-keeps o fd w p =
      let a = sets fd udt_rcvbuf o.l4_r_b_size w p in
      let b = sets fd udt_sndbuf o.l4_s_b_size _ a in
      let c = sets fd udp_rcvbuf o.l3_r_b_size _ b in
      let d = sets fd udp_sndbuf o.l3_r_b_size _ c in ground (arith, a, b, c, d)

  set_opts-keeps :
      (q : Protocol) (o : TbOptions) (fd : ℤ) (w : World) → P w → P (set_opts os q o fd w).world
  unfolding set_opts tb_set_udt_opts
  set_opts-keeps udt o fd w p = udt-keeps (fill_udt_opts os o) fd w p
  set_opts-keeps a_udt o fd w p = p
  set_opts-keeps utp o fd w p = p
  set_opts-keeps _ o fd w p = bsd-keeps _ fd w p

  -- What each call keeps, setting the options of a socket keeps.
  pub tb_set_sock_opt-keeps :
      (o : TbOptions) (fd : ℤ) (w : World) → P w → P (tb_set_sock_opt os o fd w).world
  unfolding tb_set_sock_opt
  tb_set_sock_opt-keeps o fd w p = set_opts-keeps o.protocol o fd w p
