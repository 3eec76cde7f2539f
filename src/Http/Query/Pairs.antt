-- ===== src/Http/Query/Pairs.antt =====
-- What the parser of query strings makes of one pair, of two, and of a value with an '='.
use librestserver.Libc.{Block, read_byte}
use librestserver.Libc.Bytes.{read_byte-inside}
use librestserver.Util.Num.{CString}
use librestserver.Util.Map.{Table}
use librestserver.Util.Map
use librestserver.Http.Query.{piece, scan_from, first_scan, parse_query_string}
use librestserver.Http.Query.Laws.{
  IsPlain, held, at_key, at_value, scan_from-IsPlain, equals_step, ampersand_step,
  second_equals_step, finish_step, piece-append,
}
use librestserver.Prelude.{
  fun_ext, ℕ, suc, ◌+◌, ◌≡◌, refl, sym, ap, ap₂, ◌∙◌, true, false, [], ◌∷◌, ◌++◌, append_assoc,
  arith, length, length-append, ok, ◌>>=◌,
}

-- The text of a pair from its value on.
text_split :
    (pre key value post : Block)
    → (pre ++ (key ++ (b'=' ∷ (value ++ post))) ≡ (pre ++ (key ++ (b'=' ∷ []))) ++ (value ++ post))
      × (length pre + length key + 1 ≡ length (pre ++ (key ++ (b'=' ∷ []))))
text_split pre key value post = (
  ap (λ r. pre ++ r) (sym (append_assoc key (b'=' ∷ []) (value ++ post)))
      ∙ sym (append_assoc pre (key ++ (b'=' ∷ [])) (value ++ post)),
  omega (arith, length-append pre (key ++ (b'=' ∷ [])), length-append key (b'=' ∷ [])),
)

-- The piece of the value.
value_piece :
    (pre key value post : Block) (m : Table CString) (kt : CString)
    → piece
        (pre ++ (key ++ (b'=' ∷ (value ++ post))))
        (at_value m kt (length pre + length key + 1) (length value))
      ≡ ok (held value)
value_piece pre key value post m kt =
    let (e, k) = text_split pre key value post in
    ap₂ (λ q i. piece q (at_value m kt i (length value))) e k
    ∙ piece-append (pre ++ (key ++ (b'=' ∷ []))) value post
        (at_value m kt (length (pre ++ (key ++ (b'=' ∷ [])))) (length value)) refl refl

-- The loop from the start of a pair to the end of its value.
scan_pair :
    (pre key value post : Block) (n extra : ℕ) (m : Table CString) (kt : CString)
    → IsPlain key
    → IsPlain value
    → piece (pre ++ (key ++ (b'=' ∷ (value ++ post)))) (at_key m (length pre) (extra + length key))
      ≡ ok kt
    → scan_from
        (length key + suc (length value + n))
        (pre ++ (key ++ (b'=' ∷ (value ++ post))))
        (at_key m (length pre) extra)
        (length pre)
      ≡ scan_from n
          (pre ++ (key ++ (b'=' ∷ (value ++ post))))
          (at_value m kt (length pre + length key + 1) (length value))
          (length pre + length key + 1 + length value)
scan_pair pre key value post n extra m kt plain_key plain_value text =
    let q = pre ++ (key ++ (b'=' ∷ (value ++ post))) in
    let (e, k) = text_split pre key value post in
    let from = length pre + length key + 1 in
    let zero_more : 0 + length value ≡ length value = omega arith in
    scan_from-IsPlain pre key (b'=' ∷ (value ++ post)) (suc (length value + n))
      (at_key m (length pre) extra) plain_key
    ∙ equals_step (length value + n) q m (length pre) (extra + length key) (length pre + length key)
        kt (read_byte-inside pre key b'=' (value ++ post)) text
    ∙ ap₂ (λ b i. scan_from (length value + n) b (at_value m kt from 0) i) e k
    ∙ scan_from-IsPlain (pre ++ (key ++ (b'=' ∷ []))) value post n (at_value m kt from 0)
        plain_value
    ∙ ap
        (λ l.
          scan_from n ((pre ++ (key ++ (b'=' ∷ []))) ++ (value ++ post)) (at_value m kt from l)
            (length (pre ++ (key ++ (b'=' ∷ []))) + length value))
        zero_more
    ∙ ap₂ (λ b i. scan_from n b (at_value m kt from (length value)) (i + length value)) (sym e)
        (sym k)

-- The query string of one pair, key and value without separators, puts this pair into the map of
-- parameters and succeeds.
pub parse_query_string_pair :
    (key value post : Block) (m : Table CString)
    → IsPlain key
    → IsPlain value
    → parse_query_string m (key ++ (b'=' ∷ (value ++ post))) (length key + suc (length value))
      ≡ (Map.insert m (held key) (held value) >>= λ m1. ok (m1, true))
unfolding parse_query_string
parse_query_string_pair key value post m plain_key plain_value =
    let q = key ++ (b'=' ∷ (value ++ post)) in
    let count : length key + suc (length value) ≡ length key + suc (length value + 0) =
      omega arith in
    ap (λ n. scan_from n q (first_scan m) 0) count
    ∙ scan_pair [] key value post 0 0 m (held key) plain_key plain_value (
        ap (λ n. piece q (at_key m 0 n)) (omega arith)
        ∙ piece-append [] key (b'=' ∷ (value ++ post)) (at_key m 0 (length key)) refl refl)
    ∙ finish_step q m (held key) (held value) (0 + length key + 1) (length value)
        (0 + length key + 1 + length value) (value_piece [] key value post m (held key))

-- The last pair, behind an '&': the length 1 that its key starts with adds the '=' to the key.
scan_last :
    (pre key value post : Block) (m : Table CString)
    → IsPlain key
    → IsPlain value
    → scan_from
        (length key + suc (length value))
        (pre ++ (key ++ (b'=' ∷ (value ++ post))))
        (at_key m (length pre) 1)
        (length pre)
      ≡ (Map.insert m (held (key ++ (b'=' ∷ []))) (held value) >>= λ m1. ok (m1, true))
scan_last pre key value post m plain_key plain_value =
    let q = pre ++ (key ++ (b'=' ∷ (value ++ post))) in
    let kt = held (key ++ (b'=' ∷ [])) in
    let from = length pre + length key + 1 in
    let count : length key + suc (length value) ≡ length key + suc (length value + 0) =
      omega arith in
    let text : piece q (at_key m (length pre) (1 + length key)) ≡ ok kt =
      ap (λ r. piece (pre ++ r) (at_key m (length pre) (1 + length key)))
        (sym (append_assoc key (b'=' ∷ []) (value ++ post)))
      ∙ piece-append pre (key ++ (b'=' ∷ [])) (value ++ post)
          (at_key m (length pre) (1 + length key)) refl
          (omega (arith, length-append key (b'=' ∷ []))) in
    ap (λ n. scan_from n q (at_key m (length pre) 1) (length pre)) count
    ∙ scan_pair pre key value post 0 1 m kt plain_key plain_value text
    ∙ finish_step q m kt (held value) from (length value) (from + length value)
        (value_piece pre key value post m kt)

-- The query string of two pairs, keys and values without separators: the first pair is put into the
-- map as it is, and then the second one with a key that ends with its '='.
pub parse_query_string_two :
    (key1 value1 key2 value2 post : Block) (m : Table CString)
    → IsPlain key1
    → IsPlain value1
    → IsPlain key2
    → IsPlain value2
    → parse_query_string m
        (key1 ++ (b'=' ∷ (value1 ++ (b'&' ∷ (key2 ++ (b'=' ∷ (value2 ++ post)))))))
        (length key1 + suc (length value1 + suc (length key2 + suc (length value2))))
      ≡ (Map.insert m (held key1) (held value1) >>= λ m1.
          Map.insert m1 (held (key2 ++ (b'=' ∷ []))) (held value2) >>= λ m2. ok (m2, true))
unfolding parse_query_string
parse_query_string_two key1 value1 key2 value2 post m p1 p2 p3 p4 =
    let rest = key2 ++ (b'=' ∷ (value2 ++ post)) in
    let q = key1 ++ (b'=' ∷ (value1 ++ (b'&' ∷ rest))) in
    let n = length key2 + suc (length value2) in
    let from = 0 + length key1 + 1 in
    let (e, k) = text_split [] key1 value1 (b'&' ∷ rest) in
    let here : read_byte q (from + length value1) ≡ ok b'&' =
      ap₂ (λ b i. read_byte b (i + length value1)) e k
      ∙ read_byte-inside (key1 ++ (b'=' ∷ [])) value1 b'&' rest in
    let pre = (key1 ++ (b'=' ∷ [])) ++ (value1 ++ (b'&' ∷ [])) in
    let behind : q ≡ pre ++ rest =
      e
      ∙ ap (λ r. (key1 ++ (b'=' ∷ [])) ++ r) (sym (append_assoc value1 (b'&' ∷ []) rest))
      ∙ sym (append_assoc (key1 ++ (b'=' ∷ [])) (value1 ++ (b'&' ∷ [])) rest) in
    let place : from + length value1 + 1 ≡ length pre = omega (
      arith,
      k,
      length-append (key1 ++ (b'=' ∷ [])) (value1 ++ (b'&' ∷ [])),
      length-append value1 (b'&' ∷ []),
    ) in
    scan_pair [] key1 value1 (b'&' ∷ rest) (suc n) 0 m (held key1) p1 p2 (
      ap (λ l. piece q (at_key m 0 l)) (omega arith)
      ∙ piece-append [] key1 (b'=' ∷ (value1 ++ (b'&' ∷ rest))) (at_key m 0 (length key1)) refl
          refl)
    ∙ ampersand_step n q m (held key1) (held value1) from (length value1) (from + length value1)
        here (value_piece [] key1 value1 (b'&' ∷ rest) m (held key1))
    ∙ ap (λ f. Map.insert m (held key1) (held value1) >>= f)
        (fun_ext (λ m1.
          ap₂ (λ b i. scan_from n b (at_key m1 i 1) i) behind place
          ∙ scan_last pre key2 value2 post m1 p3 p4))

-- A second '=' in the value of the first pair ends the call with its flag down and the map as it
-- was.
pub parse_query_string_second_equals :
    (key value post : Block) (n : ℕ) (m : Table CString)
    → IsPlain key
    → IsPlain value
    → parse_query_string m
        (key ++ (b'=' ∷ (value ++ (b'=' ∷ post))))
        (length key + suc (length value + suc n))
      ≡ ok (m, false)
unfolding parse_query_string
parse_query_string_second_equals key value post n m plain_key plain_value =
    let q = key ++ (b'=' ∷ (value ++ (b'=' ∷ post))) in
    let from = 0 + length key + 1 in
    let (e, k) = text_split [] key value (b'=' ∷ post) in
    let here : read_byte q (from + length value) ≡ ok b'=' =
      ap₂ (λ b i. read_byte b (i + length value)) e k
      ∙ read_byte-inside (key ++ (b'=' ∷ [])) value b'=' post in
    scan_pair [] key value (b'=' ∷ post) (suc n) 0 m (held key) plain_key plain_value (
      ap (λ l. piece q (at_key m 0 l)) (omega arith)
      ∙ piece-append [] key (b'=' ∷ (value ++ (b'=' ∷ post))) (at_key m 0 (length key)) refl refl)
    ∙ second_equals_step n q m (held key) from (length value) (from + length value) here
