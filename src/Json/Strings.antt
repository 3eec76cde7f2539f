-- ===== src/Json/Strings.antt =====
-- What becomes of a string in the JSON parser: its opening quote is also taken for the closing one.
use librestserver.Libc.{Block, read_byte}
use librestserver.Util.StringBuilder.{StringBuilder}
use librestserver.Util.StringBuilder
use librestserver.Json.{
  JsonParser, JsonValue, consume, skip_from, skip_spaces, string_from, parse_string, parse_value,
  parse_abstract, json_parse, init_str,
}
use librestserver.Prelude.{
  ℕ, suc, ◌-◌, ◌≡◌, refl, ap, true, false, Option, none, some, [], ◌∷◌, arith, ◌==◌, length, Result,
  ok,
}

abbrev pub text_parser : Block → JsonParser
text_parser s = record { rest = s; len = length s }

-- No blank is skipped in front of another byte.
skip_spaces-byte :
    (c : ℕ) (s : Block)
    → (c == b' ') ≡ false
    → skip_spaces (text_parser (c ∷ s)) ≡ ok (text_parser (c ∷ s))
unfolding skip_spaces skip_from read_byte
skip_spaces-byte c s h =
    ap
      (λ b. elim b as (λ x. Result JsonParser) [
        | true ↦ skip_from (length s) (consume (text_parser (c ∷ s)))
        | false ↦ ok (text_parser (c ∷ s))
      ])
      h

abbrev pub empty_string : StringBuilder
empty_string = record { buf = 0 ∷ []; len = 0 }

module _ {D : Type 0} where
  -- The parser of strings returns the empty string at any opening quote, and passes this byte only.
  parse_string-quote :
      (s : Block)
      → parse_string {D = D} (text_parser (b'"' ∷ s))
        ≡ ok (text_parser s, some (init_str empty_string))
  unfolding parse_string string_from StringBuilder.init consume read_byte
  parse_string-quote s =
      let passed : suc (length s) - 1 ≡ length s = omega arith in
      ap (λ n. ok (at_length s n)) passed
    where
      at_length : Block → ℕ → JsonParser × Option (JsonValue D)
      at_length s n = (record { rest = s; len = n }, some (init_str empty_string))

  module _ (parse_object : JsonParser → Result (JsonParser × Option (JsonValue D)))
      (parse_array : JsonParser → Result (JsonParser × Option (JsonValue D))) where
    abstract_quote :
        (s : Block)
        → parse_abstract parse_object parse_array (text_parser (b'"' ∷ s))
          ≡ ok (text_parser s, some (init_str empty_string))
    unfolding parse_abstract parse_value read_byte
    abstract_quote s =
        let some_bytes : (length (b'"' ∷ s) == 0) ≡ false = ground arith in
        rw some_bytes (parse_string-quote s)

    -- A document that starts with a quote and a byte that is no blank is refused, whatever follows.
    pub json_parse-string :
        (c : ℕ) (s : Block)
        → (c == b' ') ≡ false
        → json_parse parse_object parse_array (b'"' ∷ c ∷ s) (length (b'"' ∷ c ∷ s)) ≡ ok none
    unfolding json_parse
    json_parse-string c s h =
        let more : (length (c ∷ s) == 0) ≡ false = ground arith in
        rw (abstract_quote (c ∷ s)) (rw (skip_spaces-byte c s h) (rw more refl))
