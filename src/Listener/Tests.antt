-- ===== src/Listener/Tests.antt =====
-- An endpoint of src/tb_listener.c made from concrete parameters.
use fastuserprotocol.Common.{◌≡◌, refl, true, none, some}
use fastuserprotocol.Common.Int.{pos}
use fastuserprotocol.Protocol.{udt, udp_none}
use fastuserprotocol.Listener.{
  TbTestParams, client, created, create_with, tb_create_endpoint, with_params,
}
use fastuserprotocol.Listener.Endpoint.{IsConfigured, tb_create_endpoint-IsConfigured}
use fastuserprotocol.Listener.Sample.{udt_listener, udt_listener_lem}

-- A UDT client with 4 KB to send and no pack size.
abbrev params : TbTestParams
params = record {
  type = client;
  protocol = udt;
  control = udp_none;
  address = some "localhost";
  port = some "5000";
  l4_r_b_size = pos 0;
  l4_w_b_size = pos 0;
  l3_r_b_size = pos 0;
  l3_w_b_size = pos 77;
  d_size = pos 4;
  file_name = none;
  print_stats = true;
  log_enable = true;
  pack_size = pos 0;
}

params_lem : tb_create_endpoint params ≡ created (with_params params udt_listener)
unfolding tb_create_endpoint create_with
params_lem = rw udt_listener_lem refl

tb_create_endpoint-IsConfigured_example : IsConfigured params (with_params params udt_listener)
tb_create_endpoint-IsConfigured_example =
    tb_create_endpoint-IsConfigured params (with_params params udt_listener) params_lem
