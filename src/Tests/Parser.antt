-- ===== src/Tests/Parser.antt =====
-- The parsers at small inputs.
use librestserver.Libc.{Block}
use librestserver.Util.Map.{Table}
use librestserver.Util.Map
use librestserver.Parser.State.{Parser, finished, start}
use librestserver.Parser.Execute.{run}
use librestserver.Parser.Execute.Body.{InBody, bump}
use librestserver.Parser.Execute.Body.Complete.{run_complete, run_incomplete, run_half}
use librestserver.Parser.Header.{header_line}
use librestserver.Parser.Header.Lines.{behind_name}
use librestserver.Parser.Header.Pairs.{header_line_second_colon}
use librestserver.Http.Request.{string_map}
use librestserver.Http.Query.{parse_query_string}
use librestserver.Http.Query.Laws.{held}
use librestserver.Http.Query.Pairs.{parse_query_string_two}
use librestserver.Tests.Samples.{logging, in_body}
use librestserver.Prelude.{
  ℕ, ◌^◌, ◌<◌, ◌≡◌, refl, true, false, [], ◌∷◌, ◌++◌, arith, no_progress, ok, err, ◌>>=◌,
}

abbrev hi : Block
hi = b'h' ∷ b'i' ∷ []

in_body-InBody : (need : ℕ) → need < 2 ^ 31 → InBody (in_body need) (13 ∷ 10 ∷ []) hi need
in_body-InBody need h = record {
  in_state = refl;
  contents = record { exact = refl; counted = refl };
  place = refl;
  remaining = omega arith;
  small_buffer = omega arith;
  small_body = h;
}

run_complete_example : run logging 2 (in_body 2) [] ≡ (
    logging.on_body hi [] >>= λ d. logging.on_message_complete (bump (in_body 2) 2) d >>= λ e.
    ok (record (bump (in_body 2) 2) { state = finished }, e))
run_complete_example =
    run_complete logging 0 (in_body 2) (13 ∷ 10 ∷ []) b'h' (b'i' ∷ []) [] []
      (in_body-InBody 2 (omega arith))

run_incomplete_example : run logging 100 (in_body 3) [] ≡ err no_progress
run_incomplete_example =
    run_incomplete logging 100 (in_body 3) (13 ∷ 10 ∷ []) b'h' (b'i' ∷ []) 3 [] _
      (in_body-InBody 3 (omega arith)) (omega arith) (omega arith) refl

run_half_example : run logging 1 (in_body 4) [] ≡ (
    logging.on_body hi [] >>= λ d. logging.on_message_complete (bump (in_body 4) 2) d >>= λ e.
    ok (record (bump (in_body 4) 2) { state = finished }, e))
run_half_example =
    run_half logging 0 (in_body 4) (13 ∷ 10 ∷ []) b'h' (b'i' ∷ []) []
      (in_body-InBody 4 (omega arith))

header_line_second_colon_example :
    header_line logging
      (in_body 0)
      ((b'A' ∷ []) ++ behind_name 1 (b'x' ∷ []) (b':' ∷ b'8' ∷ []))
      6
      []
    ≡ (logging.on_header_field (b'A' ∷ []) [] >>= λ d. ok (in_body 0, d, false, false))
header_line_second_colon_example =
    header_line_second_colon logging (in_body 0) b'A' [] 1 b'x' [] (b'8' ∷ []) 1 []
      (refl, (refl, tt)) (omega arith, tt) (refl, (refl, tt))

parse_query_string_two_example :
    parse_query_string string_map
      ((b'k' ∷ [])
        ++ (b'=' ∷ ((b'v' ∷ []) ++ (b'&' ∷ ((b'l' ∷ []) ++ (b'=' ∷ ((b'w' ∷ []) ++ (0 ∷ []))))))))
      7
    ≡ (Map.insert string_map (held (b'k' ∷ [])) (held (b'v' ∷ [])) >>= λ m1.
        Map.insert m1 (held ((b'l' ∷ []) ++ (b'=' ∷ []))) (held (b'w' ∷ [])) >>= λ m2.
        ok (m2, true))
parse_query_string_two_example =
    parse_query_string_two (b'k' ∷ []) (b'v' ∷ []) (b'l' ∷ []) (b'w' ∷ []) (0 ∷ []) string_map
      ((refl, tt), (refl, tt)) ((refl, tt), (refl, tt)) ((refl, tt), (refl, tt))
      ((refl, tt), (refl, tt))

abbrev pub fresh : Parser
fresh = record (in_body 0) { state = start; last_pos = 0; buf = record { buf = 0 ∷ []; len = 0 } }
