-- ===== src/Tests/Messages.antt =====
-- A whole request and a whole response, at small inputs.
use librestserver.Libc.{Block, codes, is_digit}
use librestserver.Util.Keys.{key_of, IsKey, same_string, cstr_comparator-Compares}
use librestserver.Util.Map
use librestserver.Util.Map.Shape.{has}
use librestserver.Util.Map.Laws.{IsMap}
use librestserver.Util.StringBuilder.Laws.{Spells}
use librestserver.Parser.State.{Parser, finished, post}
use librestserver.Parser.Header.{header_line, scan_length}
use librestserver.Parser.Execute.{execute}
use librestserver.Parser.Execute.Headers.{Field, IsField, tell_fields}
use librestserver.Parser.Execute.Body.{delivered}
use librestserver.Parser.Execute.Steps.{line_of}
use librestserver.Parser.Execute.Request.{IsFresh, IsLine, request_text, execute_message}
use librestserver.Parser.Execute.Rounds.{line_end}
use librestserver.Parser.Execute.Split.{execute_split}
use librestserver.Http.Request.{string_map}
use librestserver.Http.Response.{Response, set_body_n}
use librestserver.Http.Response.Text.{header_text}
use librestserver.Http.Response.Length.{length_key, set_body_n-kept, set_body_n-read}
use librestserver.Client.Answer.Targets.{string_map-IsMap}
use librestserver.Tests.Samples.{Log, logging}
use librestserver.Tests.Parser.{fresh}
use librestserver.Prelude.{
  ◌+◌, ◌-◌, ◌≡◌, refl, true, false, none, some, [], ◌∷◌, ◌++◌, arith, length, ok, ◌>>=◌, pos,
}

-- The line `Content-Length: 2`.
abbrev pub two_bytes : Field
two_bytes = record {
  initial = b'C';
  rest_of_name = codes "ontent-Length";
  blanks = 1;
  first = b'2';
  rest_of_value = [];
}

pub two_bytes-IsField : IsField two_bytes
two_bytes-IsField = record {
  name_shown = ground arith;
  name_text = ground arith;
  value_shown = ground arith;
  one_line = ground arith;
  small = omega arith;
}

fresh-IsFresh : IsFresh fresh
fresh-IsFresh = record {
  in_state = refl;
  empty = record { exact = refl; counted = refl };
  at_start = refl;
  unread = refl;
}

pub request-IsLine : IsLine post (b'/' ∷ []) b'1' b'1'
unfolding is_digit
request-IsLine = record {
  no_blank = (refl, tt);
  one_line = ground arith;
  major_digit = refl;
  minor_digit = refl;
  small = omega arith;
}

abbrev request : Block
request = request_text (line_of post (b'/' ∷ []) b'1' b'1') (two_bytes ∷ []) (b'h' ∷ b'i' ∷ [])

execute_message_example :
    (at_begin at_headers at_end : Parser) × (execute logging 5 fresh request (length request) [] ≡ (
      logging.on_message_begin at_begin [] >>= λ d. logging.on_url (b'/' ∷ []) d >>= λ e.
      tell_fields logging (two_bytes ∷ []) e >>= λ f.
      logging.on_headers_complete at_headers f >>= λ g.
      delivered logging (b'h' ∷ b'i' ∷ []) g >>= λ h.
      logging.on_message_complete at_end h >>= λ i. ok (record at_end { state = finished }, i)))
    × (at_end.method ≡ post)
    × (at_end.http_major ≡ b'1' - b'0')
    × (at_end.http_minor ≡ b'1' - b'0')
    × (at_end.body_read ≡ 2)
    × Spells at_end.buf (b'h' ∷ b'i' ∷ [])
execute_message_example =
    execute_message logging 0 fresh post b'/' [] b'1' b'1' (two_bytes ∷ []) (b'h' ∷ b'i' ∷ []) []
      fresh-IsFresh request-IsLine (two_bytes-IsField, tt) (unfold scan_length in refl)
      (omega arith)

-- The two parts of the line `Content-Length: 2`, one in each packet.
abbrev pub cut_part : Block
cut_part = codes "Content-Le"

abbrev pub left_part : Block
left_part = codes "ngth: 2"

abbrev pub packet : Block
packet = line_of post (b'/' ∷ []) b'1' b'1' ++ (line_end ++ ([] ++ cut_part))

abbrev pub packet_behind : Block
packet_behind = left_part ++ (line_end ++ ([] ++ (line_end ++ (b'h' ∷ b'i' ∷ []))))

execute_split_example :
    (at_begin at_headers at_end : Parser) × ((execute logging 2 fresh packet (length packet) []
        >>= λ (r : Parser × Log). execute logging 4 r.0 packet_behind (length packet_behind) r.1)
      ≡ (logging.on_message_begin at_begin [] >>= λ d. logging.on_url (b'/' ∷ []) d >>= λ e.
          tell_fields logging (two_bytes ∷ []) e >>= λ f.
          logging.on_headers_complete at_headers f >>= λ g.
          delivered logging (b'h' ∷ b'i' ∷ []) g >>= λ h.
          logging.on_message_complete at_end h >>= λ i. ok (record at_end { state = finished }, i)))
    × (at_end.method ≡ post)
    × (at_end.http_major ≡ b'1' - b'0')
    × (at_end.http_minor ≡ b'1' - b'0')
    × (at_end.body_read ≡ 2)
    × Spells at_end.buf (b'h' ∷ b'i' ∷ [])
execute_split_example =
    execute_split logging 0 0 fresh post b'/' [] b'1' b'1' [] [] two_bytes cut_part left_part
      (b'h' ∷ b'i' ∷ []) [] fresh-IsFresh request-IsLine (two_bytes-IsField, tt) refl
      (unfold scan_length in refl) (omega arith)

abbrev response : Response
response = record {
  http_major = 1;
  http_minor = 1;
  status_code = pos 200;
  status_message = none;
  headers = string_map;
  body = record { buf = 0 ∷ []; len = 0 };
}

set_body_n-read_example :
    (out : Response) × (value : Block) × (set_body_n response ((b'h' ∷ b'i' ∷ []) ++ (0 ∷ [])) 2
      ≡ ok out)
    × Spells out.body ([] ++ (b'h' ∷ b'i' ∷ []))
    × (Map.find out.headers length_key ≡ ok (some (key_of value)))
    × (header_line logging fresh
          (header_text (codes "Content-Length") value ++ (13 ∷ 10 ∷ []))
          (16 + length value)
          []
        ≡ (logging.on_header_field (codes "Content-Length") [] >>= λ d.
            logging.on_header_value value d >>= λ e.
            ok (record fresh { content_length = 2 }, e, true, false)))
set_body_n-read_example =
    set_body_n-read logging response [] (b'h' ∷ b'i' ∷ []) (0 ∷ []) (13 ∷ 10 ∷ []) fresh []
      (record { exact = refl; counted = refl }) string_map-IsMap (unfold has in refl) (omega arith)

-- The response when it got the length 0 before.
abbrev answered : Response
answered = record response {
  headers = record (string_map) {
    v = record {
      slots = some length_key ∷ some (key_of (codes "0")) ∷ [];
      size = 2;
      capacity = 2;
      destructor = none;
    };
  };
}

answered-IsMap : IsMap same_string IsKey answered.headers ((length_key, key_of (codes "0")) ∷ [])
unfolding has string_map
answered-IsMap = record {
  represents = record {
    compares = cstr_comparator-Compares;
    holds = record { unused = []; layout = refl; counted = refl; block = refl; room = omega arith };
    keys = ((codes "Content-Length", ground arith, refl), tt);
  };
  distinct = (refl, tt);
}

set_body_n-kept_example :
    (out : Response) × (set_body_n answered ((b'h' ∷ b'i' ∷ []) ++ (0 ∷ [])) 2 ≡ ok out)
    × Spells out.body ([] ++ (b'h' ∷ b'i' ∷ []))
    × (Map.find out.headers length_key ≡ Map.find answered.headers length_key)
set_body_n-kept_example =
    set_body_n-kept answered [] (b'h' ∷ b'i' ∷ []) (0 ∷ []) length_key
      (record { exact = refl; counted = refl }) answered-IsMap
      (unfold has in (unfold same_string in refl)) (omega arith)
      (codes "Content-Length", ground arith, refl)
