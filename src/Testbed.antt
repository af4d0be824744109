-- ===== src/Testbed.antt =====
-- tb_parse of src/tb_testbed.c: the command line. argv is the list of the words, whose length is argc.
pub mod Laws
pub mod Start
mod Tests
use Prim.Native.Nat.{Ordering}
use Prim.Native.String.{String, compare as compare_str}
use fastuserprotocol.Common.{
  ℕ, ◌+◌, Bool, true, false, ◌&&◌, Option, none, some, List, [], ◌∷◌, ◌==◌, leb, length,
  if◌then◌else◌,
}
use fastuserprotocol.Common.Int.{ℤ, pos, ◌*ℤ◌, ◌==ℤ◌, to_int}
use fastuserprotocol.Protocol.{Protocol, tcp, udp, udt, a_udt, utp, e_udp, dccp}
use fastuserprotocol.Listener.{
  TbListener, EndpointType, server, client, m_server, m_client, tb_aborting, tb_create_listener,
}

-- What parsing comes to: exit(-1), a thread that aborts, a read through a null pointer or of a
-- variable that was not set, or a listener that tb_start is called with.
pub data Parsed : Type 0 where
  process_exit : Parsed
  undefined : Parsed
  aborted started : TbListener → Parsed

-- strcmp(a, b) == 0.
abbrev pub str_eq : String → String → Bool
str_eq a b = elim (compare_str a b) [ Ordering.eq ↦ true | _ ↦ false ]

unfoldable pub parse_type : ℕ → String → Option EndpointType
parse_type argc word =
    if str_eq "server" word
    then some server
    else if str_eq "client" word && (argc == 8)
    then some client
    else if str_eq "mserver" word
    then some m_server
    else if str_eq "mclient" word
    then some m_client
    else none

unfoldable pub parse_protocol : String → Option Protocol
parse_protocol word =
    if str_eq "tcp" word
    then some tcp
    else if str_eq "udp" word
    then some udp
    else if str_eq "udt" word
    then some udt
    else if str_eq "audt" word
    then some a_udt
    else if str_eq "utp" word
    then some utp
    else if str_eq "eudp" word
    then some e_udp
    else if str_eq "dccp" word
    then some dccp
    else none

abbrev pub is_client : EndpointType → Bool
is_client client = true
is_client m_client = true
is_client _ = false

-- A size of 0 for the buffer is replaced.
abbrev pub default_bufsize : TbListener → TbListener
default_bufsize l =
    if l.bufsize ==ℤ pos 0
    then record l { bufsize = if is_client l.e_type then l.file_size else pos 1408 }
    else l

-- The callbacks are set, and the listener is started.
abbrev pub start : TbListener → Parsed
start l = started (record (default_bufsize l) { d_exit = true; callbacks_set = true })

-- sscanf(word, "%d", ...) is a parameter: `none` if it sets nothing.
module _ (scan : String → Option ℤ) where
  -- The size stays 0 if the word is no number.
  abbrev pub scanned_size : Option ℤ → ℤ
  scanned_size none = pos 0
  scanned_size (some n) = to_int (n *ℤ pos 1024)

  -- The words after the size of the buffer, for a client. A word that is missing is the null pointer.
  unfoldable pub parse_file : List String → TbListener → Parsed
  parse_file [] l = undefined
  parse_file (kind ∷ []) l =
      if str_eq "size" kind
      then undefined
      else if str_eq "file" kind
      then undefined
      else aborted (record l { status = tb_aborting })
  parse_file (kind ∷ name ∷ _) l =
      if str_eq "size" kind
      then start (record l { file_size = scanned_size (scan name) })
      else if str_eq "file" kind
      then start (record l { filename = some name })
      else aborted (record l { status = tb_aborting })

  unfoldable pub parse_created : List String → Option TbListener → Parsed
  unfolding parse_file
  parse_created rest none = process_exit
  parse_created rest (some l) = if is_client l.e_type then parse_file rest l else start l

  unfoldable pub parse_words :
      Option EndpointType → Option Protocol → Option ℤ → String → String → List String → Parsed
  unfolding parse_created
  parse_words none p n addr port rest = process_exit
  parse_words (some t) none n addr port rest = process_exit
  parse_words (some t) (some p) none addr port rest = undefined
  parse_words (some t) (some p) (some n) addr port rest =
      parse_created rest (tb_create_listener t addr port p n)

  unfoldable pub tb_parse : List String → Parsed
  unfolding parse_words
  tb_parse (_ ∷ type ∷ addr ∷ port ∷ prot ∷ buf ∷ rest) =
      if leb (length rest) 2
      then parse_words (parse_type (length rest + 6) type) (parse_protocol prot) (scan buf) addr
          port rest
      else process_exit
  tb_parse _ = process_exit
