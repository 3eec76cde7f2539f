-- ===== src/Tests/Http.antt =====
-- A response rendered, at a small input.
use librestserver.Libc.{Block, codes}
use librestserver.Util.Num.{cstr_comparator}
use librestserver.Util.Vector.{cstr_dtor}
use librestserver.Util.StringBuilder.{StringBuilder}
use librestserver.Util.StringBuilder.Laws.{Spells}
use librestserver.Http.Response.{Response, to_string}
use librestserver.Http.Response.Text.{stored, headers_text, status_text, to_string-Spells}
use librestserver.Prelude.{◌≡◌, refl, none, some, List, [], ◌∷◌, ◌++◌, map, arith, ok, pos}

abbrev pub headers : List (Block × Block)
headers = (codes "A", codes "1") ∷ []

abbrev pub response : Response
response = record {
  http_major = 1;
  http_minor = 1;
  status_code = pos 200;
  status_message = some (codes "OK" ++ (0 ∷ []));
  headers = record {
    v = record { slots = map some (stored headers); size = 2; capacity = 2; destructor = none };
    comparator = cstr_comparator;
    key_destructor = some cstr_dtor;
    value_destructor = some cstr_dtor;
  };
  body = record { buf = b'h' ∷ b'i' ∷ 0 ∷ []; len = 2 };
}

to_string-Spells_example :
    (out : StringBuilder) × (to_string response ≡ ok out)
    × Spells out (
        ((status_text response (codes "OK") ++ headers_text headers) ++ codes "\r\n")
        ++ (b'h' ∷ b'i' ∷ []))
to_string-Spells_example =
    to_string-Spells response (codes "OK") headers (b'h' ∷ b'i' ∷ []) refl
      (omega arith, (omega arith, tt))
      (record { unused = []; layout = refl; counted = refl; block = refl; room = omega arith })
      (((omega arith, tt), (omega arith, tt)), tt) (record { exact = refl; counted = refl })
