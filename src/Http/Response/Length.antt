-- ===== src/Http/Response/Length.antt =====
-- RST_response_set_body_n: the Content-Length of a response and the length of its body.
use librestserver.Libc.{Block, codes, literal, digits, print_int}
use librestserver.Libc.Decimal.{print_int-digits}
use librestserver.Libc.Strings.{IsText, print_int-IsText}
use librestserver.Util.Num.{CString}
use librestserver.Util.Keys.{key_of, IsKey, same_string, same_string_self}
use librestserver.Util.Map.{Table}
use librestserver.Util.Map
use librestserver.Util.Map.Shape.{has, find-Represents}
use librestserver.Util.Map.Laws.{IsMap, find-insert}
use librestserver.Util.StringBuilder.{StringBuilder}
use librestserver.Util.StringBuilder.Laws.{Spells, append_n-Spells, alloc_string-text}
use librestserver.Parser.State.{Parser, Settings}
use librestserver.Parser.Header.{header_line}
use librestserver.Parser.Header.Length.{header_line-digits}
use librestserver.Http.Response.{Response, copy_string, set_body_n}
use librestserver.Http.Response.Text.{header_text}
use librestserver.Prelude.{
  ℕ, ◌+◌, ◌^◌, ◌<◌, ◌≡◌, refl, sym, ap, ◌∙◌, true, false, some, List, [], ◌∷◌, ◌++◌, append_assoc,
  arith, length, Result, ok, ◌>>=◌, pos, to_int,
}

abbrev pub length_key : CString
length_key = key_of (codes "Content-Length")

length_key-IsKey : IsKey length_key
length_key-IsKey = (codes "Content-Length", ground arith, refl)

copy_string-text : (s : Block) → IsText s → copy_string (key_of s) ≡ ok (key_of s)
unfolding copy_string
copy_string-text s h = rw (alloc_string-text s [] h) refl

printed_length : (n : ℕ) → n < 2 ^ 31 → print_int (to_int n) ≡ digits n
printed_length n h =
    let positive : to_int n ≡ pos n = ground arith in ap print_int positive ∙ print_int-digits n

-- The header is inserted behind the others.
set_body_n-insert :
    (r : Response) {s : Block} (bytes post : Block)
    → Spells r.body s
    → length (s ++ bytes) < 2 ^ 31
    → (body : StringBuilder) × Spells body (s ++ bytes)
      × (set_body_n r (bytes ++ post) (length bytes) ≡ (
          Map.insert r.headers length_key (key_of (digits (length (s ++ bytes)))) >>= λ headers.
          ok (record r { body = body; headers = headers })))
unfolding set_body_n
set_body_n-insert r {s} bytes post h small =
    let (body, e, g) = append_n-Spells bytes post h in
    let printed : print_int (to_int body.len) ≡ digits (length (s ++ bytes)) =
      ap (λ n. print_int (to_int n)) g.counted ∙ printed_length (length (s ++ bytes)) small in
    let name : copy_string (some (literal "Content-Length")) ≡ ok length_key =
      copy_string-text (codes "Content-Length") (ground arith) in
    let value : copy_string (some (print_int (to_int body.len) ++ (0 ∷ [])))
        ≡ ok (key_of (digits (length (s ++ bytes)))) =
      copy_string-text (print_int (to_int body.len)) (print_int-IsText (to_int body.len))
      ∙ ap (λ l. ok (key_of l)) printed in
    let store : StringBuilder → CString → CString → Result Response = λ b k v.
      Map.insert r.headers k v >>= λ headers. ok (record r { body = b; headers = headers }) in
    let with_value : StringBuilder → CString → Result Response =
      λ b k. copy_string (some (print_int (to_int b.len) ++ (0 ∷ []))) >>= store b k in
    (
      body,
      g,
      ap (λ q. q >>= λ b. copy_string (some (literal "Content-Length")) >>= with_value b) e
          ∙ ap (λ q. q >>= with_value body) name
          ∙ ap (λ q. q >>= store body length_key) value,
    )

-- A second body is appended to the first one, but the header keeps the length that it had.
pub set_body_n-kept :
    (r : Response) (s : Block) {entries : List (CString × CString)} (bytes post : Block)
    (j : CString)
    → Spells r.body s
    → IsMap same_string IsKey r.headers entries
    → has same_string length_key entries ≡ true
    → length (s ++ bytes) < 2 ^ 31
    → IsKey j
    → (out : Response) × (set_body_n r (bytes ++ post) (length bytes) ≡ ok out)
      × Spells out.body (s ++ bytes)
      × (Map.find out.headers j ≡ Map.find r.headers j)
set_body_n-kept r s {entries} bytes post j h m old small key =
    let (body, g, e) = set_body_n-insert r bytes post h small in
    let (headers, f, _, found) =
      find-insert same_string IsKey length_key (key_of (digits (length (s ++ bytes)))) j m
        length_key-IsKey key in
    (
      record r { body = body; headers = headers },
      e ∙ rw f refl,
      g,
      found ∙ rw old (sym (find-Represents same_string IsKey j m.represents key)),
    )

module _ {C : Type 0} (settings : Settings C) where
  -- The Content-Length that a response gets with its first body, written as a line of the response and
  -- read by the parser of requests, is the length of the body.
  pub set_body_n-read :
      (r : Response) (s : Block) {entries : List (CString × CString)} (bytes post tail : Block)
      (p : Parser) (c : C)
      → Spells r.body s
      → IsMap same_string IsKey r.headers entries
      → has same_string length_key entries ≡ false
      → length (s ++ bytes) < 2 ^ 31
      → (out : Response) × (value : Block) × (set_body_n r (bytes ++ post) (length bytes) ≡ ok out)
        × Spells out.body (s ++ bytes)
        × (Map.find out.headers length_key ≡ ok (some (key_of value)))
        × (header_line settings p
              (header_text (codes "Content-Length") value ++ tail)
              (16 + length value)
              c
            ≡ (settings.on_header_field (codes "Content-Length") c >>= λ d.
                settings.on_header_value value d >>= λ e.
                ok (record p { content_length = length (s ++ bytes) }, e, true, false)))
  set_body_n-read r s {entries} bytes post tail p c h m absent small =
      let n = length (s ++ bytes) in
      let (body, g, e) = set_body_n-insert r bytes post h small in
      let (headers, f, _, found) =
        find-insert same_string IsKey length_key (key_of (digits n)) length_key m length_key-IsKey
          length_key-IsKey in
      let same : same_string length_key length_key ≡ true =
        same_string_self (codes "Content-Length") (ground arith) in
      (
        record r { body = body; headers = headers },
        digits n,
        e ∙ rw f refl,
        g,
        found ∙ rw (absent, same) refl,
        ap
              (λ l.
                header_line settings p (codes "Content-Length" ++ (b':' ∷ b' ' ∷ l))
                  (16 + length (digits n)) c)
              (append_assoc (digits n) (codes "\r\n") tail)
            ∙ header_line-digits settings p n (codes "\r\n" ++ tail) c (omega arith),
      )
