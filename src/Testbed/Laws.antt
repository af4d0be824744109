-- ===== src/Testbed/Laws.antt =====
-- What tb_parse of src/tb_testbed.c makes of a command line.
use Prim.Native.String.{String}
use fastuserprotocol.Common.{
  ◌≡◌, ◌≢◌, refl, ap, ◌∙◌, inl, inr, true, Option, some, [], ◌∷◌, Bool-cases, if◌then◌else◌,
}
use fastuserprotocol.Common.Int.{ℤ, pos, ◌*ℤ◌, ◌==ℤ◌, to_int}
use fastuserprotocol.Protocol.{Protocol, tcp, udp, udt, a_udt, utp, e_udp, dccp, tb_create_protocol}
use fastuserprotocol.Listener.{
  TbListener, EndpointType, server, client, m_server, m_client, tb_create_listener,
}
use fastuserprotocol.Testbed.{
  undefined, started, parse_type, parse_protocol, is_client, parse_file, parse_created, parse_words,
  tb_parse, start, scanned_size,
}

-- The words of the README.
abbrev pub type_word : EndpointType → String
type_word server = "server"
type_word client = "client"
type_word m_server = "mserver"
type_word m_client = "mclient"

abbrev pub protocol_word : Protocol → String
protocol_word tcp = "tcp"
protocol_word udp = "udp"
protocol_word udt = "udt"
protocol_word a_udt = "audt"
protocol_word utp = "utp"
protocol_word e_udp = "eudp"
protocol_word dccp = "dccp"

parse_protocol-word : (p : Protocol) → parse_protocol (protocol_word p) ≡ some p
unfolding parse_protocol
parse_protocol-word tcp = refl
parse_protocol-word udp = refl
parse_protocol-word udt = refl
parse_protocol-word a_udt = refl
parse_protocol-word utp = refl
parse_protocol-word e_udp = refl
parse_protocol-word dccp = refl

parse_type-word : (t : EndpointType) → parse_type 8 (type_word t) ≡ some t
unfolding parse_type
parse_type-word server = refl
parse_type-word client = refl
parse_type-word m_server = refl
parse_type-word m_client = refl

-- A listener as a command line asks for it, with its callbacks set.
pub record IsAsked (t : EndpointType) (p : Protocol) (addr port : String) (l : TbListener)
    : Type 0 where
  pub e_type : l.e_type ≡ t
  pub protocol : l.protocol.protocol ≡ p
  pub bind_address : l.bind_address ≡ addr
  pub bind_port : l.bind_port ≡ port
  pub callbacks : l.callbacks_set ≡ true
  pub d_exit : l.d_exit ≡ true

pub created_listener :
    (t : EndpointType) (addr port : String) (p : Protocol) (n : ℤ)
    → p ≢ a_udt
    → (l : TbListener) × (tb_create_listener t addr port p n ≡ some l)
      × (l.e_type ≡ t)
      × (l.protocol.protocol ≡ p)
      × (l.bind_address ≡ addr)
      × (l.bind_port ≡ port)
      × (l.bufsize ≡ n)
unfolding tb_create_listener tb_create_protocol
created_listener t addr port a_udt n h = absurd (h refl)
created_listener t addr port _ n h = (_, refl, refl, refl, refl, refl, refl)

start-IsAsked :
    (t : EndpointType) (p : Protocol) (addr port : String) (l : TbListener)
    → l.e_type ≡ t
    → l.protocol.protocol ≡ p
    → l.bind_address ≡ addr
    → l.bind_port ≡ port
    → (l' : TbListener) × (start l ≡ started l')
      × IsAsked t p addr port l'
      × (l'.bufsize ≡ (
          if l.bufsize ==ℤ pos 0
          then if is_client l.e_type then l.file_size else pos 1408
          else l.bufsize))
      × (l'.file_size ≡ l.file_size)
start-IsAsked t p addr port l et pr ad po = elim (Bool-cases (l.bufsize ==ℤ pos 0)) [
  | inl zero ↦ rw zero (
    _,
    refl,
    record {
      e_type = et;
      protocol = pr;
      bind_address = ad;
      bind_port = po;
      callbacks = refl;
      d_exit = refl;
    },
    refl,
    refl,
  )
  | inr other ↦ rw other (
    _,
    refl,
    record {
      e_type = et;
      protocol = pr;
      bind_address = ad;
      bind_port = po;
      callbacks = refl;
      d_exit = refl;
    },
    refl,
    refl,
  )
]

module _ (scan : String → Option ℤ) where
  -- A client for any protocol but aUDT, for one connection or several, that is to send a file of
  -- `k` KB made for the purpose, is started as asked, with its callbacks set; its buffer has the
  -- size that is given, or, if that is 0, the size of its data.
  pub tb_parse-client :
      (prog addr port buf size : String) (t : EndpointType) (p : Protocol) (n k : ℤ)
      → is_client t ≡ true
      → p ≢ a_udt
      → scan buf ≡ some n
      → scan size ≡ some k
      → (l : TbListener) × (tb_parse scan
            (prog ∷ type_word t ∷ addr ∷ port ∷ protocol_word p ∷ buf ∷ "size" ∷ size ∷ [])
          ≡ started l)
        × IsAsked t p addr port l
        × (l.file_size ≡ to_int (k *ℤ pos 1024))
        × (l.bufsize ≡ (if n ==ℤ pos 0 then to_int (k *ℤ pos 1024) else n))
  unfolding tb_parse parse_words parse_created parse_file
  tb_parse-client prog addr port buf size t p n k cl not_audt at_buf at_size =
      rw (parse_type-word t, parse_protocol-word p, at_buf)
        (finish (created_listener t addr port p n not_audt))
    where
      given :
          (m : ℤ) (e : EndpointType)
          → m ≡ n
          → is_client e ≡ true
          → (if m ==ℤ pos 0 then if is_client e then to_int (k *ℤ pos 1024) else pos 1408 else m)
            ≡ (if n ==ℤ pos 0 then to_int (k *ℤ pos 1024) else n)
      given m e same c =
          ap
            (λ x.
              if x ==ℤ pos 0 then if is_client e then to_int (k *ℤ pos 1024) else pos 1408 else x)
            same
          ∙ ap (λ c'. if n ==ℤ pos 0 then if c' then to_int (k *ℤ pos 1024) else pos 1408 else n) c

      finish :
          (l : TbListener) × (tb_create_listener t addr port p n ≡ some l)
            × (l.e_type ≡ t)
            × (l.protocol.protocol ≡ p)
            × (l.bind_address ≡ addr)
            × (l.bind_port ≡ port)
            × (l.bufsize ≡ n)
          → (l : TbListener) × (parse_created scan
                ("size" ∷ size ∷ [])
                (tb_create_listener t addr port p n)
              ≡ started l)
            × IsAsked t p addr port l
            × (l.file_size ≡ to_int (k *ℤ pos 1024))
            × (l.bufsize ≡ (if n ==ℤ pos 0 then to_int (k *ℤ pos 1024) else n))
      finish (l, made, et, pr, ad, po, bs) =
          let (l', run, asked, buf_size, file) =
            start-IsAsked t p addr port (record l { file_size = to_int (k *ℤ pos 1024) }) et pr ad
              po in
          let client_there = ap is_client et ∙ cl in
          (
            l',
            ap (parse_created scan ("size" ∷ size ∷ [])) made
                ∙ ap (λ b. if b then parse_file scan ("size" ∷ size ∷ []) l else start l)
                    client_there
                ∙ ap (λ o. start (record l { file_size = scanned_size scan o })) at_size
                ∙ run,
            asked,
            file,
            buf_size ∙ given l.bufsize l.e_type bs client_there,
          )

  -- A client for several connections, for any protocol but aUDT, whose file is not named on the
  -- command line makes tb_parse read through a null pointer, whatever the other words are.
  pub tb_parse-m_client_undefined :
      (prog addr port buf : String) (p : Protocol) (n : ℤ)
      → p ≢ a_udt
      → scan buf ≡ some n
      → tb_parse scan (prog ∷ "mclient" ∷ addr ∷ port ∷ protocol_word p ∷ buf ∷ []) ≡ undefined
  unfolding tb_parse parse_type parse_words parse_created parse_file
  tb_parse-m_client_undefined prog addr port buf p n not_audt at_buf =
      let c = created_listener m_client addr port p n not_audt in
      rw (parse_protocol-word p, at_buf)
        (ap (parse_created scan []) c.1
          ∙ ap (λ t. if is_client t then parse_file scan [] c.0 else start c.0) c.2)
