-- ===== src/Testbed/Tests.antt =====
-- Command lines for tb_parse of src/tb_testbed.c.
use Prim.Native.String.{String}
use fastuserprotocol.Common.{◌≡◌, refl, Option, none, some, [], ◌∷◌, if◌then◌else◌, arith}
use fastuserprotocol.Common.Int.{ℤ, pos, to_int, ◌*ℤ◌}
use fastuserprotocol.Protocol.{tcp, udt}
use fastuserprotocol.Listener.{TbListener, m_client}
use fastuserprotocol.Testbed.{started, undefined, str_eq, tb_parse}
use fastuserprotocol.Testbed.Laws.{IsAsked, tb_parse-client, tb_parse-m_client_undefined}

-- Two numbers are enough here.
abbrev scan : String → Option ℤ
scan w = if str_eq "0" w then some (pos 0) else if str_eq "9" w then some (pos 9) else none

tb_parse-client_example :
    (l : TbListener) × (tb_parse scan
        ("TestBed" ∷ "mclient" ∷ "localhost" ∷ "5000" ∷ "udt" ∷ "0" ∷ "size" ∷ "9" ∷ [])
      ≡ started l)
    × IsAsked m_client udt "localhost" "5000" l
    × (l.file_size ≡ to_int (pos 9 *ℤ pos 1024))
    × (l.bufsize ≡ to_int (pos 9 *ℤ pos 1024))
tb_parse-client_example =
    tb_parse-client scan "TestBed" "localhost" "5000" "0" "9" m_client udt (pos 0) (pos 9) refl
      (ground arith) refl refl

tb_parse-m_client_undefined_example :
    tb_parse scan ("TestBed" ∷ "mclient" ∷ "localhost" ∷ "5000" ∷ "tcp" ∷ "9" ∷ []) ≡ undefined
tb_parse-m_client_undefined_example =
    tb_parse-m_client_undefined scan "TestBed" "localhost" "5000" "9" tcp (pos 9) (ground arith)
      refl
