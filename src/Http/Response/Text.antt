-- ===== src/Http/Response/Text.antt =====
-- The text of a response.
use librestserver.Libc.{Block, codes, print_int, literal}
use librestserver.Libc.Strings.{IsText, print_int-IsText}
use librestserver.Util.Num.{CString}
use librestserver.Util.Vector.Shape.{Holds, read_slot-Holds}
use librestserver.Util.Map.Shape.{get_second}
use librestserver.Util.Map.{Table}
use librestserver.Util.Map
use librestserver.Util.StringBuilder.{StringBuilder, append_int}
use librestserver.Util.StringBuilder
use librestserver.Util.StringBuilder.Laws.{
  append_builder-Spells, append_char-Spells, Spells, append-Spells,
}
use librestserver.Http.Response.{
  Response, append_header, append_headers, append_status_line, to_string,
}
use librestserver.Prelude.{
  subst, ℕ, zero, suc, ◌+◌, ◌<◌, ◌≡◌, refl, sym, ap, ◌∙◌, true, false, some, List, [], ◌∷◌, ◌++◌,
  append_assoc, append-nil, arith, leb, length, get_elem?, length-append, get_elem?-append_length,
  Result, ok, ◌>>=◌, ℤ, pos,
}

-- The headers as the map of a response holds them.
abbrev pub stored : List (Block × Block) → List CString
stored [] = []
stored ((name, value) ∷ hs) = some (name ++ (0 ∷ [])) ∷ some (value ++ (0 ∷ [])) ∷ stored hs

abbrev pub AllTexts : List (Block × Block) → Type 0
AllTexts [] = Unit
AllTexts ((name, value) ∷ hs) = (IsText name × IsText value) × AllTexts hs

-- One line for each header.
abbrev pub header_text : Block → Block → Block
header_text name value = ((name ++ codes ": ") ++ value) ++ codes "\r\n"

abbrev pub headers_text : List (Block × Block) → Block
headers_text [] = []
headers_text ((name, value) ∷ hs) = header_text name value ++ headers_text hs

-- The first line of a response.
abbrev pub status_text : Response → Block → Block
status_text r message =
    (((((((codes "HTTP/" ++ print_int (pos r.http_major)) ++ (b'.' ∷ []))
              ++ print_int (pos r.http_minor))
            ++ (b' ' ∷ []))
          ++ print_int r.status_code)
        ++ (b' ' ∷ []))
      ++ message)
    ++ codes "\r\n"

append_header-Spells :
    {sb : StringBuilder} {s : Block} (name value : Block)
    → Spells sb s
    → IsText name
    → IsText value
    → (out : StringBuilder) × (append_header sb (some (name ++ (0 ∷ []))) (some (value ++ (0 ∷ [])))
        ≡ ok out)
      × Spells out (s ++ header_text name value)
unfolding append_header
append_header-Spells {sb} {s} name value h p q =
    let (a, e1, g1) = append-Spells name [] h p in
    let (b, e2, g2) = append-Spells (codes ": ") [] g1 (omega arith, (omega arith, tt)) in
    let (c, e3, g3) = append-Spells value [] g2 q in
    let (d, e4, g4) = append-Spells (codes "\r\n") [] g3 (omega arith, (omega arith, tt)) in
    let joined : (((s ++ name) ++ codes ": ") ++ value) ++ codes "\r\n"
        ≡ s ++ header_text name value =
      ap (λ l. (l ++ value) ++ codes "\r\n") (append_assoc s name (codes ": "))
      ∙ ap (λ l. l ++ codes "\r\n") (append_assoc s (name ++ codes ": ") value)
      ∙ append_assoc s ((name ++ codes ": ") ++ value) (codes "\r\n") in
    (d, rw e1 (rw e2 (rw e3 e4)), subst (λ l. Spells d l) joined g4)

headers_end :
    (fuel : ℕ) (m : Table CString) (k : ℕ) (sb : StringBuilder)
    → leb m.v.size k ≡ true
    → append_headers (suc fuel) m k sb ≡ ok sb
unfolding append_headers Map.end
headers_end fuel m k sb h =
    ap
      (λ b. elim b as (λ x. Result StringBuilder) [
        | true ↦ ok sb
        | false ↦ Map.value m k >>= (λ (p : CString × CString).
            append_header sb p.0 p.1 >>= λ t. append_headers fuel m (Map.next k) t)
      ])
      h

headers_step :
    (fuel : ℕ) (m : Table CString) (k : ℕ) (sb out : StringBuilder) (name value : CString)
    → leb m.v.size k ≡ false
    → Map.value m k ≡ ok (name, value)
    → append_header sb name value ≡ ok out
    → append_headers (suc fuel) m k sb ≡ append_headers fuel m (k + 2) out
unfolding append_headers Map.end Map.next
headers_step fuel m k sb out name value h v a =
    ap
      (λ b. elim b as (λ x. Result StringBuilder) [
        | true ↦ ok sb
        | false ↦ Map.value m k >>= (λ (p : CString × CString).
            append_header sb p.0 p.1 >>= λ t. append_headers fuel m (Map.next k) t)
      ])
      h
    ∙ ap
        (λ r. r >>= (λ (p : CString × CString).
          append_header sb p.0 p.1 >>= λ t. append_headers fuel m (k + 2) t))
        v
    ∙ ap (λ r. r >>= λ t. append_headers fuel m (k + 2) t) a

value-Holds :
    (m : Table CString) (pre : List CString) (name value : CString) (rest : List CString)
    → Holds m.v (pre ++ (name ∷ value ∷ rest))
    → Map.value m (length pre) ≡ ok (name, value)
unfolding Map.value
value-Holds m pre name value rest h =
    let second : get_elem? (pre ++ (name ∷ value ∷ rest)) (length pre + 1) ≡ some value =
      get_second pre name value rest in
    rw (read_slot-Holds (length pre) h (get_elem?-append_length pre name (value ∷ rest)))
      (rw (read_slot-Holds (length pre + 1) h second) refl)

append_headers-Spells :
    (fuel : ℕ) (m : Table CString) (pre : List CString) (hs : List (Block × Block))
    {sb : StringBuilder} {s : Block}
    → Holds m.v (pre ++ stored hs)
    → AllTexts hs
    → Spells sb s
    → length (stored hs) < fuel
    → (out : StringBuilder) × (append_headers fuel m (length pre) sb ≡ ok out)
      × Spells out (s ++ headers_text hs)
append_headers-Spells zero m pre hs h p g lt = absurd (omega arith)
append_headers-Spells (suc fuel) m pre [] {sb} {s} h p g lt =
    let past : leb m.v.size (length pre) ≡ true = ground (arith, h.counted, length-append pre []) in
    (sb, headers_end fuel m (length pre) sb past, subst (λ l. Spells sb l) (sym (append-nil s)) g)
append_headers-Spells (suc fuel) m pre ((name, value) ∷ hs) {sb} {s} h p g lt =
    let key : CString = some (name ++ (0 ∷ [])) in
    let val : CString = some (value ++ (0 ∷ [])) in
    let inside : leb m.v.size (length pre) ≡ false =
      ground (arith, h.counted, length-append pre (key ∷ val ∷ stored hs)) in
    let (a, e, g1) = append_header-Spells name value g p.0.0 p.0.1 in
    let h' : Holds m.v ((pre ++ (key ∷ val ∷ [])) ++ stored hs) =
      rw (append_assoc pre (key ∷ val ∷ []) (stored hs)) h in
    let place : length pre + 2 ≡ length (pre ++ (key ∷ val ∷ [])) =
      omega (arith, length-append pre (key ∷ val ∷ [])) in
    let (out, f, g2) =
      append_headers-Spells fuel m (pre ++ (key ∷ val ∷ [])) hs h' p.1 g1 (omega arith) in
    (
      out,
      headers_step fuel m (length pre) sb a key val inside (value-Holds m pre key val (stored hs) h)
            e
          ∙ ap (λ k. append_headers fuel m k a) place
          ∙ f,
      subst (λ l. Spells out l) (append_assoc s (header_text name value) (headers_text hs)) g2,
    )

append_int-Spells :
    {sb : StringBuilder} {s : Block} (x : ℤ)
    → Spells sb s
    → (out : StringBuilder) × (append_int sb x ≡ ok out) × Spells out (s ++ print_int x)
unfolding append_int
append_int-Spells x h = append-Spells (print_int x) [] h (print_int-IsText x)

append_status_line-Spells :
    (r : Response) {sb : StringBuilder} (message : Block)
    → Spells sb []
    → r.status_message ≡ some (message ++ (0 ∷ []))
    → IsText message
    → (out : StringBuilder) × (append_status_line sb r ≡ ok out)
      × Spells out (status_text r message)
unfolding append_status_line
append_status_line-Spells r {sb} message h e p =
    let (o1, e1, g1) =
      append-Spells (codes "HTTP/") [] h
        (omega arith, (omega arith, (omega arith, (omega arith, (omega arith, tt))))) in
    let (o2, e2, g2) = append_int-Spells (pos r.http_major) g1 in
    let (o3, e3, g3) = append_char-Spells b'.' g2 in
    let (o4, e4, g4) = append_int-Spells (pos r.http_minor) g3 in
    let (o5, e5, g5) = append_char-Spells b' ' g4 in
    let (o6, e6, g6) = append_int-Spells r.status_code g5 in
    let (o7, e7, g7) = append_char-Spells b' ' g6 in
    let (o8, e8, g8) = append-Spells message [] g7 p in
    let (o9, e9, g9) = append-Spells (codes "\r\n") [] g8 (omega arith, (omega arith, tt)) in
    let with_message : StringBuilder.append o7 r.status_message ≡ ok o8 =
      ap (StringBuilder.append o7) e ∙ e8 in
    (o9, rw e1 (rw e2 (rw e3 (rw e4 (rw e5 (rw e6 (rw e7 (rw with_message e9))))))), g9)

-- The text of a response: the line with version, status and message, a line for each header in the
-- order of the map, an empty line, and the body.
pub to_string-Spells :
    (r : Response) (message : Block) (hs : List (Block × Block)) (body : Block)
    → r.status_message ≡ some (message ++ (0 ∷ []))
    → IsText message
    → Holds r.headers.v (stored hs)
    → AllTexts hs
    → Spells r.body body
    → (out : StringBuilder) × (to_string r ≡ ok out)
      × Spells out (((status_text r message ++ headers_text hs) ++ codes "\r\n") ++ body)
unfolding to_string
to_string-Spells r message hs body e p h texts spelled =
    let sb : StringBuilder = record { buf = 0 ∷ []; len = 0 } in
    let g0 : Spells sb [] = record { exact = refl; counted = refl } in
    let (a, e1, g1) = append_status_line-Spells r message g0 e p in
    let (b, e2, g2) =
      append_headers-Spells (suc r.headers.v.size) r.headers [] hs h texts g1
        (omega (arith, h.counted)) in
    let (c, e3, g3) = append-Spells (codes "\r\n") [] g2 (omega arith, (omega arith, tt)) in
    let (out, e4, g4) = append_builder-Spells g3 spelled in
    (
      out,
      ap
            (λ q. q >>= λ t. append_headers (suc r.headers.v.size) r.headers 0 t >>= λ t.
              StringBuilder.append t (some (literal "\r\n")) >>= λ t.
              StringBuilder.append_builder t (some r.body))
            e1
          ∙ ap
              (λ q. q >>= λ t. StringBuilder.append t (some (literal "\r\n")) >>= λ t.
                StringBuilder.append_builder t (some r.body))
              e2
          ∙ ap (λ q. q >>= λ t. StringBuilder.append_builder t (some r.body)) e3
          ∙ e4,
      g4,
    )
