-- ===== src/Stats.antt =====
-- tb_prot_stats_t of src/tb_protocol.h without its floating-point fields, and the functions of
-- src/tb_protocol.c that fill the rest.
pub mod Get
use fastuserprotocol.Common.{ℕ, Option, none}
use fastuserprotocol.Common.Int.{ℤ, pos}
use fastuserprotocol.Protocol.{Protocol}
use fastuserprotocol.Timer.{TbTime}

-- An address; 0 is the null pointer. The statistics of a session stand under the address of the
-- session, whose allocation they share.
abbrev pub Ptr : Type 0
Ptr = ℕ

pub record TbProtStats : Type 0 where
  pub id : ℤ
  pub byte_sec : ℤ
  pub peak_byte_sec : ℤ
  pub num_m_seconds : ℤ
  pub current_read : ℤ
  pub total_bytes : ℤ
  pub send_p_loss : ℤ
  pub recv_p_loss : ℤ
  pub w_buff_size : ℤ
  pub r_buff_size : ℤ
  pub protocol : Protocol
  pub connect_time : ℤ
  pub transfer_time : ℤ
  pub stat_time : Option TbTime
  pub n_stats : Ptr

-- memset(stats, 0, sizeof(tb_prot_stats_t)); TCP is enumerator 0.
abbrev pub tb_create_stats : TbProtStats
tb_create_stats = record {
  id = pos 0;
  byte_sec = pos 0;
  peak_byte_sec = pos 0;
  num_m_seconds = pos 0;
  current_read = pos 0;
  total_bytes = pos 0;
  send_p_loss = pos 0;
  recv_p_loss = pos 0;
  w_buff_size = pos 0;
  r_buff_size = pos 0;
  protocol = Protocol.tcp;
  connect_time = pos 0;
  transfer_time = pos 0;
  stat_time = none;
  n_stats = 0;
}
