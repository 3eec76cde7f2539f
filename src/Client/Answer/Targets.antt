-- ===== src/Client/Answer/Targets.antt =====
-- The urls of requests: a path, a path with a query of one or two pairs, and a path with a query whose
-- pair has a second '='.
use librestserver.Libc.{Block}
use librestserver.Libc.Bytes.{Lacks}
use librestserver.Libc.Strings.{IsText}
use librestserver.Util.Num.{CString, cstr_comparator}
use librestserver.Util.Keys.{IsKey, same_string, cstr_comparator-Compares}
use librestserver.Util.Map.{Table}
use librestserver.Util.Map.Shape.{inserted, has}
use librestserver.Util.Map.Laws.{IsMap, find-insert, init-IsMap}
use librestserver.Http.Request.{string_map}
use librestserver.Http.Query.{parse_query_string}
use librestserver.Http.Query.Laws.{IsPlain}
use librestserver.Http.Query.Pairs.{
  parse_query_string_pair, parse_query_string_second_equals, parse_query_string_two,
}
use librestserver.Client.Collect.Headers.{kept}
use librestserver.Client.Answer.Parsed.{IsParsed, plain-IsParsed, query-IsParsed}
use librestserver.Prelude.{
  suc, ◌+◌, ◌≡◌, refl, ap, ap₂, ◌∙◌, Bool, true, false, List, [], ◌∷◌, ◌++◌, append_assoc, arith,
  length, length-append,
}

pub string_map-IsMap : IsMap same_string IsKey string_map []
unfolding string_map
string_map-IsMap = init-IsMap same_string IsKey cstr_comparator _ _ cstr_comparator-Compares

-- The query of one pair, and that of a pair with a second '=' in its value.
abbrev pub pair_text : Block → Block → Block
pair_text key value = key ++ (b'=' ∷ value)

abbrev pub bad_text : Block → Block → Block → Block
bad_text key value more = key ++ (b'=' ∷ (value ++ (b'=' ∷ more)))

pub pair-IsParsed :
    (path key value : Block)
    → Lacks b'?' path
    → IsPlain key
    → IsPlain value
    → IsText key
    → (params : Table CString) × IsMap same_string IsKey params
        (inserted same_string IsKey (kept key) (kept value) [])
      × IsParsed string_map (path ++ (b'?' ∷ pair_text key value)) path params true
pair-IsParsed path key value no_query plain_key plain_value text =
    let (m, e, g, _) =
      find-insert same_string IsKey (kept key) (kept value) (kept key) string_map-IsMap
        (key, text, refl) (key, text, refl) in
    let size : length (pair_text key value) ≡ length key + suc (length value) =
      length-append key (b'=' ∷ value) in
    (
      m,
      g,
      query-IsParsed string_map path (pair_text key value) m true no_query (ground (arith, size)) (
          ap₂ (parse_query_string string_map) (append_assoc key (b'=' ∷ value) (0 ∷ [])) size
          ∙ parse_query_string_pair key value (0 ∷ []) string_map plain_key plain_value
          ∙ rw e refl),
    )

pub bad-IsParsed :
    (path key value more : Block)
    → Lacks b'?' path
    → IsPlain key
    → IsPlain value
    → IsParsed string_map (path ++ (b'?' ∷ bad_text key value more)) path string_map false
bad-IsParsed path key value more no_query plain_key plain_value =
    let query = bad_text key value more in
    let size : length query ≡ length key + suc (length value + suc (length more)) =
      length-append key (b'=' ∷ (value ++ (b'=' ∷ more)))
      ∙ ap (λ n. length key + suc n) (length-append value (b'=' ∷ more)) in
    let ended : query ++ (0 ∷ []) ≡ bad_text key value (more ++ (0 ∷ [])) =
      append_assoc key (b'=' ∷ (value ++ (b'=' ∷ more))) (0 ∷ [])
      ∙ ap (λ l. key ++ (b'=' ∷ l)) (append_assoc value (b'=' ∷ more) (0 ∷ [])) in
    query-IsParsed string_map path query string_map false no_query (ground (arith, size)) (
      ap₂ (parse_query_string string_map) ended size
      ∙ parse_query_string_second_equals key value (more ++ (0 ∷ [])) (length more) string_map
          plain_key plain_value)

-- The query of two pairs.
abbrev pub two_text : Block → Block → Block → Block → Block
two_text key value key2 value2 = key ++ (b'=' ∷ (value ++ (b'&' ∷ (key2 ++ (b'=' ∷ value2)))))

-- The parser leaves the '=' of the second pair with its key.
two-IsParsed :
    (path key value key2 value2 : Block)
    → Lacks b'?' path
    → IsPlain key × IsPlain value
    → IsPlain key2 × IsPlain value2
    → IsText key
    → IsText (key2 ++ (b'=' ∷ []))
    → (params : Table CString) × IsMap same_string IsKey params (
        inserted same_string IsKey
          (kept (key2 ++ (b'=' ∷ [])))
          (kept value2)
          (inserted same_string IsKey (kept key) (kept value) []))
      × IsParsed string_map (path ++ (b'?' ∷ two_text key value key2 value2)) path params true
two-IsParsed path key value key2 value2 no_query (plain_key, plain_value) (plain_key2, plain_value2)
      text text2 =
    let name = key2 ++ (b'=' ∷ []) in
    let (m, e, g, _) =
      find-insert same_string IsKey (kept key) (kept value) (kept key) string_map-IsMap
        (key, text, refl) (key, text, refl) in
    let (n, e2, g2, _) =
      find-insert same_string IsKey (kept name) (kept value2) (kept name) g (name, text2, refl)
        (name, text2, refl) in
    let last : length (key2 ++ (b'=' ∷ value2)) ≡ length key2 + suc (length value2) =
      length-append key2 (b'=' ∷ value2) in
    let middle : length (value ++ (b'&' ∷ (key2 ++ (b'=' ∷ value2))))
        ≡ length value + suc (length key2 + suc (length value2)) =
      length-append value (b'&' ∷ (key2 ++ (b'=' ∷ value2)))
      ∙ ap (λ n. length value + suc n) last in
    let size : length (two_text key value key2 value2)
        ≡ length key + suc (length value + suc (length key2 + suc (length value2))) =
      length-append key (b'=' ∷ (value ++ (b'&' ∷ (key2 ++ (b'=' ∷ value2)))))
      ∙ ap (λ n. length key + suc n) middle in
    let behind : (key2 ++ (b'=' ∷ value2)) ++ (0 ∷ []) ≡ key2 ++ (b'=' ∷ (value2 ++ (0 ∷ []))) =
      append_assoc key2 (b'=' ∷ value2) (0 ∷ []) in
    let ended : two_text key value key2 value2 ++ (0 ∷ [])
        ≡ two_text key value key2 (value2 ++ (0 ∷ [])) =
      append_assoc key (b'=' ∷ (value ++ (b'&' ∷ (key2 ++ (b'=' ∷ value2))))) (0 ∷ [])
      ∙ ap (λ l. key ++ (b'=' ∷ l))
          (append_assoc value (b'&' ∷ (key2 ++ (b'=' ∷ value2))) (0 ∷ [])
            ∙ ap (λ l. value ++ (b'&' ∷ l)) behind) in
    (
      n,
      g2,
      query-IsParsed string_map path (two_text key value key2 value2) n true no_query
          (ground (arith, size))
          (ap₂ (parse_query_string string_map) ended size
            ∙ parse_query_string_two key value key2 value2 (0 ∷ []) string_map plain_key plain_value
                plain_key2 plain_value2
            ∙ rw e (rw e2 refl)),
    )

-- A url by what it spells.
pub data Target : Type 0 where
  plain : Block → Target
  pair : Block → Block → Block → Target
  two_pairs : Block → Block → Block → Block → Block → Target
  refused : Block → Block → Block → Block → Target

-- The path that a url names.
abbrev pub path_of : Target → Block
path_of (plain path) = path
path_of (pair path key value) = path
path_of (two_pairs path key value key2 value2) = path
path_of (refused path key value more) = path

abbrev pub url_of : Target → Block
url_of (plain path) = path
url_of (pair path key value) = path ++ (b'?' ∷ pair_text key value)
url_of (two_pairs path key value key2 value2) = path ++ (b'?' ∷ two_text key value key2 value2)
url_of (refused path key value more) = path ++ (b'?' ∷ bad_text key value more)

-- Whether the query of a url can be read.
abbrev pub good_of : Target → Bool
good_of (plain path) = true
good_of (pair path key value) = true
good_of (two_pairs path key value key2 value2) = true
good_of (refused path key value more) = false

-- The parameters that a url gives. The second of two pairs has an '=' at the end of its key.
abbrev pub pairs_of : Target → List (CString × CString)
pairs_of (plain path) = []
pairs_of (pair path key value) = (kept key, kept value) ∷ []
pairs_of (two_pairs path key value key2 value2) =
    inserted same_string IsKey (kept (key2 ++ (b'=' ∷ []))) (kept value2)
      ((kept key, kept value) ∷ [])
pairs_of (refused path key value more) = []

-- The path has no '?', and neither a key nor the value behind it has a separator; keys that are stored
-- are texts.
abbrev pub IsTarget : Target → Type 0
IsTarget (plain path) = Lacks b'?' path
IsTarget (pair path key value) = Lacks b'?' path × (IsText key × (IsPlain key × IsPlain value))
IsTarget (two_pairs path key value key2 value2) =
    Lacks b'?' path
    × ((IsText key × IsText (key2 ++ (b'=' ∷ [])))
        × ((IsPlain key × IsPlain value) × (IsPlain key2 × IsPlain value2)))
IsTarget (refused path key value more) = Lacks b'?' path × (IsPlain key × IsPlain value)

-- The url of a request is split into what it spells.
pub url_of-IsParsed :
    (t : Target)
    → IsTarget t
    → (params : Table CString) × IsMap same_string IsKey params (pairs_of t)
      × IsParsed string_map (url_of t) (path_of t) params (good_of t)
unfolding has
url_of-IsParsed (plain path) h = (string_map, string_map-IsMap, plain-IsParsed string_map path h)
url_of-IsParsed (pair path key value) (no_query, (text, (plain_key, plain_value))) =
    pair-IsParsed path key value no_query plain_key plain_value text
url_of-IsParsed (two_pairs path key value key2 value2)
      (no_query, ((text, text2), (first, second))) =
    two-IsParsed path key value key2 value2 no_query first second text text2
url_of-IsParsed (refused path key value more) (no_query, (plain_key, plain_value)) =
    (string_map, string_map-IsMap, bad-IsParsed path key value more no_query plain_key plain_value)
