-- ===== src/Listener/Endpoint.antt =====
-- What tb_create_endpoint of src/tb_listener.c makes of its parameters.
use mathlib.Core.Path.{subst}
use Prim.Native.String.{String}
use fastuserprotocol.Common.{◌≡◌, refl, Bool, true, false, Option, none, some, if◌then◌else◌}
use fastuserprotocol.Common.Int.{pos, ◌*ℤ◌, ◌==ℤ◌, to_int}
use fastuserprotocol.Protocol.{TbProtocol, tb_create_protocol}
use fastuserprotocol.Protocol.Laws.{tb_create_protocol-protocol}
use fastuserprotocol.Listener.{
  TbTestParams, TbListener, Created, created, size_fits, make_endpoint, create_with, listener_with,
  tb_create_listener, tb_create_endpoint,
}

-- An endpoint as its parameters ask for it. Its callbacks are not set.
pub record IsConfigured (p : TbTestParams) (l : TbListener) : Type 0 where
  pub address : p.address ≡ some l.bind_address
  pub port : p.port ≡ some l.bind_port
  pub fits : size_fits p ≡ true
  pub e_type : l.e_type ≡ p.type
  pub protocol : l.protocol.protocol ≡ p.protocol
  pub file_size : l.file_size ≡ to_int (p.d_size *ℤ pos 1024)
  pub filename : l.filename ≡ p.file_name
  pub bufsize : l.bufsize ≡ (if p.pack_size ==ℤ pos 0 then pos 1408 else p.pack_size)
  pub l3_send : l.options.l3_s_b_size ≡ p.l3_w_b_size
  pub l3_receive : l.options.l3_r_b_size ≡ p.l3_r_b_size
  pub l4_send : l.options.l4_s_b_size ≡ p.l4_w_b_size
  pub l4_receive : l.options.l4_r_b_size ≡ p.l4_r_b_size
  pub options : l.options.protocol ≡ p.protocol
  pub callbacks : l.callbacks_set ≡ false

abbrev Configured : TbTestParams → Created → Type 0
Configured p (created l) = IsConfigured p l
Configured p _ = Unit {0}

listener_with-Configured :
    (p : TbTestParams) (addr port : String) (o : Option TbProtocol)
    → p.address ≡ some addr
    → p.port ≡ some port
    → size_fits p ≡ true
    → ((t : TbProtocol) → o ≡ some t → t.protocol ≡ p.protocol)
    → Configured p (make_endpoint p (listener_with o p.type addr port p.protocol p.pack_size))
unfolding listener_with
listener_with-Configured p addr port none ea ep ef et = tt
listener_with-Configured p addr port (some t) ea ep ef et = record {
  address = ea;
  port = ep;
  fits = ef;
  e_type = refl;
  protocol = et t refl;
  file_size = refl;
  filename = refl;
  bufsize = refl;
  l3_send = refl;
  l3_receive = refl;
  l4_send = refl;
  l4_receive = refl;
  options = refl;
  callbacks = refl;
}

create_with-Configured :
    (p : TbTestParams) (addr port : Option String) (fits : Bool)
    → p.address ≡ addr
    → p.port ≡ port
    → size_fits p ≡ fits
    → Configured p (create_with addr port fits p)
unfolding create_with tb_create_listener
create_with-Configured p none port fits ea ep ef = tt
create_with-Configured p (some addr) none fits ea ep ef = tt
create_with-Configured p (some addr) (some port) false ea ep ef = tt
create_with-Configured p (some addr) (some port) true ea ep ef =
    listener_with-Configured p addr port (tb_create_protocol p.protocol) ea ep ef
      (λ t e. (tb_create_protocol-protocol p.protocol t e))

-- An endpoint that is created has the address, the port, the type, the protocol and the buffer sizes
-- of its parameters, which have passed the assertions; its file size is that of the parameters in
-- bytes, and its pack size the one given, or 1408 for 0. Its callbacks for errors are not set.
pub tb_create_endpoint-IsConfigured :
    (p : TbTestParams) (l : TbListener) → tb_create_endpoint p ≡ created l → IsConfigured p l
unfolding tb_create_endpoint
tb_create_endpoint-IsConfigured p l e =
    subst (Configured p) e (create_with-Configured p p.address p.port (size_fits p) refl refl refl)
