-- ===== src/SockOpt.antt =====
-- src/tb_sock_opt.c: default buffer sizes, and the calls that set them on a socket.
pub mod Laws
pub mod Keeps
mod Tests
use fastuserprotocol.Common.{ℕ, ◌*◌, Bool, true, false, not, if◌then◌else◌}
use fastuserprotocol.Common.Int.{ℤ, pos, minus_one, ◌==ℤ◌}
use fastuserprotocol.Protocol.{Protocol, CongestionControl, tcp, udp, udt, a_udt, utp, e_udp, dccp}
use fastuserprotocol.Os.{
  Os, OptName, so_rcvbuf, so_sndbuf, so_reuseaddr, udt_rcvbuf, udt_sndbuf, udp_rcvbuf, udp_sndbuf,
}

-- tb_options_t.
pub record TbOptions : Type 0 where
  pub protocol : Protocol
  pub l4_r_b_size : ℤ
  pub l4_s_b_size : ℤ
  pub l3_r_b_size : ℤ
  pub l3_s_b_size : ℤ
  pub control : CongestionControl

-- The constants, in the order of the source.
abbrev pub udt_snd_buff : ℤ
udt_snd_buff = pos (1024 * 1024 * 10)

abbrev pub udt_rcv_buff : ℤ
udt_rcv_buff = pos (1024 * 1024 * 10)

abbrev pub udp_snd_buff : ℤ
udp_snd_buff = pos (1024 * 256)

abbrev pub udp_rcv_buff : ℤ
udp_rcv_buff = pos (1024 * 1024)

abbrev pub tcp_snd_buff : ℤ
tcp_snd_buff = pos (1024 * 256)

abbrev pub tcp_rcv_buff : ℤ
tcp_rcv_buff = pos (1024 * 1024)

abbrev pub utp_snd_buff : ℤ
utp_snd_buff = pos (300 * 200)

abbrev pub utp_rcv_buff : ℤ
utp_rcv_buff = pos (300 * 200)

abbrev pub dccp_snd_buff : ℤ
dccp_snd_buff = pos (1024 * 256)

abbrev pub dccp_rcv_buff : ℤ
dccp_rcv_buff = pos (1024 * 1024)

-- if(size == 0) size = value;
abbrev pub or_default : ℤ → ℤ → ℤ
or_default size value = if size ==ℤ pos 0 then value else size

-- The result of a setter: its return value, the options, which it may complete, and the world.
pub record Outcome (World : Type 0) : Type 0 where
  pub rc : ℤ
  pub options : TbOptions
  pub world : World

module _ {World : Type 0} (os : Os World) where
  -- The rest of tb_set_bsd_sock_opts once both sizes are set: the sizes are read back, and the
  -- address is made reusable.
  unfoldable pub set_reuse : TbOptions → ℤ → World → Outcome World
  set_reuse o fd w =
      let snd = os.getsockopt fd so_sndbuf w in
      let rcv = os.getsockopt fd so_rcvbuf snd.1 in
      let on = os.setsockopt fd so_reuseaddr (pos 1) rcv.1 in
      record { rc = if on.0 ==ℤ pos 0 then pos 0 else minus_one; options = o; world = on.1 }

  unfoldable pub tb_set_bsd_sock_opts : TbOptions → ℤ → World → Outcome World
  unfolding set_reuse
  tb_set_bsd_sock_opts o fd w =
      let rcv = os.setsockopt fd so_rcvbuf o.l3_r_b_size w in
      let snd = os.setsockopt fd so_sndbuf o.l3_s_b_size rcv.1 in
      if not (rcv.0 ==ℤ pos 0)
      then record { rc = minus_one; options = o; world = rcv.1 }
      else if not (snd.0 ==ℤ pos 0)
      then record { rc = minus_one; options = o; world = snd.1 }
      else set_reuse o fd snd.1

  pub tb_set_tcp_opts : TbOptions → ℤ → World → Outcome World
  tb_set_tcp_opts o fd w =
      tb_set_bsd_sock_opts
        (record o {
          l3_r_b_size = or_default o.l3_r_b_size tcp_rcv_buff;
          l3_s_b_size = or_default o.l3_s_b_size tcp_snd_buff;
        })
        fd w

  pub tb_set_udp_opts : TbOptions → ℤ → World → Outcome World
  tb_set_udp_opts o fd w =
      tb_set_bsd_sock_opts
        (record o {
          l3_r_b_size = or_default o.l3_r_b_size udp_rcv_buff;
          l3_s_b_size = or_default o.l3_s_b_size udp_snd_buff;
        })
        fd w

  -- The four sizes that UDT completes.
  abbrev pub fill_udt_opts : TbOptions → TbOptions
  fill_udt_opts o = record o {
    l4_r_b_size = or_default o.l4_r_b_size udt_rcv_buff;
    l4_s_b_size = or_default o.l4_s_b_size udt_snd_buff;
    l3_r_b_size = or_default o.l3_r_b_size udp_rcv_buff;
    l3_s_b_size = or_default o.l3_s_b_size udp_snd_buff;
  }

  -- The four calls; the last one hands over `l3_r_b_size`, as the source does.
  unfoldable pub call_udt_opts : TbOptions → ℤ → World → Outcome World
  call_udt_opts o fd w =
      let a = os.setsockopt fd udt_rcvbuf o.l4_r_b_size w in
      let b = os.setsockopt fd udt_sndbuf o.l4_s_b_size a.1 in
      let c = os.setsockopt fd udp_rcvbuf o.l3_r_b_size b.1 in
      let d = os.setsockopt fd udp_sndbuf o.l3_r_b_size c.1 in
      if a.0 ==ℤ minus_one
      then record { rc = minus_one; options = o; world = a.1 }
      else if b.0 ==ℤ minus_one
      then record { rc = minus_one; options = o; world = b.1 }
      else if c.0 ==ℤ minus_one
      then record { rc = minus_one; options = o; world = c.1 }
      else if d.0 ==ℤ minus_one
      then record { rc = minus_one; options = o; world = d.1 }
      else record { rc = pos 0; options = o; world = d.1 }

  unfoldable pub tb_set_udt_opts : TbOptions → ℤ → World → Outcome World
  unfolding call_udt_opts
  tb_set_udt_opts o fd w = call_udt_opts (fill_udt_opts o) fd w

  pub tb_set_audt_opts : TbOptions → ℤ → World → Outcome World
  tb_set_audt_opts o fd w = record { rc = pos 0; options = o; world = w }

  pub tb_set_utp_opts : TbOptions → ℤ → World → Outcome World
  tb_set_utp_opts o fd w = record {
    rc = pos 0;
    options = record o {
      l4_r_b_size = or_default o.l4_r_b_size utp_rcv_buff;
      l4_s_b_size = or_default o.l4_s_b_size utp_snd_buff;
      l3_r_b_size = or_default o.l3_r_b_size udp_rcv_buff;
      l3_s_b_size = or_default o.l3_s_b_size udp_snd_buff;
    };
    world = w;
  }

  pub tb_set_eudp_opts : TbOptions → ℤ → World → Outcome World
  unfolding tb_set_udp_opts
  tb_set_eudp_opts o fd w = tb_set_udp_opts o fd w

  pub tb_set_dccp_opts : TbOptions → ℤ → World → Outcome World
  tb_set_dccp_opts o fd w =
      tb_set_bsd_sock_opts
        (record o {
          l3_r_b_size = or_default o.l3_r_b_size dccp_rcv_buff;
          l3_s_b_size = or_default o.l3_s_b_size dccp_snd_buff;
        })
        fd w

  unfoldable pub set_opts : Protocol → TbOptions → ℤ → World → Outcome World
  unfolding tb_set_tcp_opts tb_set_udp_opts tb_set_udt_opts tb_set_audt_opts tb_set_utp_opts
      tb_set_eudp_opts tb_set_dccp_opts
  set_opts tcp = tb_set_tcp_opts
  set_opts udp = tb_set_udp_opts
  set_opts udt = tb_set_udt_opts
  set_opts a_udt = tb_set_audt_opts
  set_opts utp = tb_set_utp_opts
  set_opts e_udp = tb_set_eudp_opts
  set_opts dccp = tb_set_dccp_opts

  -- The switch on the protocol.
  unfoldable pub tb_set_sock_opt : TbOptions → ℤ → World → Outcome World
  unfolding set_opts
  tb_set_sock_opt o = set_opts o.protocol o
