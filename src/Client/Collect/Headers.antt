-- ===== src/Client/Collect/Headers.antt =====
-- How the names and values that the parser hands over become the headers of the request.
use librestserver.Libc.{Block}
use librestserver.Util.Num.{CString}
use librestserver.Util.Map
use librestserver.Util.StringBuilder.{StringBuilder, append_n, init}
use librestserver.Util.StringBuilder
use librestserver.Util.StringBuilder.Laws.{Spells, append_n-all, alloc_string_n-take}
use librestserver.Client.State.{Client}
use librestserver.Client.Collect.{
  copy_of, save_pair, save_header, begin_field, on_header_field, begin_value, on_header_value,
}
use librestserver.Prelude.{
  ◌≡◌, refl, ap, ap₂, ◌∙◌, true, false, none, some, [], ◌∷◌, ◌++◌, arith, length, length-append,
  take-length-append, null_pointer, Result, ok, err, ◌>>=◌, from_option,
}

-- A text as the maps hold it, and as a builder spells it.
abbrev pub kept : Block → CString
kept s = some (s ++ (0 ∷ []))

abbrev pub builder : Block → StringBuilder
builder s = record { buf = s ++ (0 ∷ []); len = length s }

Spells-builder : (sb : StringBuilder) (s : Block) → Spells sb s → sb ≡ builder s
Spells-builder sb s h = ap₂ (λ b n. record { buf = b; len = n }) h.exact h.counted

pub append_n-builder : (s t : Block) → append_n (builder s) t (length t) ≡ ok (builder (s ++ t))
append_n-builder s t =
    let (out, e, h) = append_n-all t (record { exact = refl; counted = refl }) in
    e ∙ ap ok (Spells-builder out (s ++ t) h)

copy_of-builder : (s : Block) → copy_of (builder s) ≡ ok (kept s)
unfolding copy_of
copy_of-builder s =
    rw (alloc_string_n-take (s ++ (0 ∷ [])) (length s) (omega (arith, length-append s (0 ∷ []))))
      (rw (take-length-append s (0 ∷ [])))

-- A client whose last header has this name and this value.
abbrev pub with_header : Client → Block → Block → Client
with_header c name value = record c {
  parser_last_was_value = true;
  parser_header_field = some (builder name);
  parser_header_value = some (builder value);
}

-- A client that was given a name and not yet its value.
abbrev pub with_name : Client → Block → Client
with_name c name = record c {
  parser_last_was_value = false;
  parser_header_field = some (builder name);
  parser_header_value = none;
}

-- A client without a header at hand, before the first one and after the last one.
abbrev pub without_header : Client → Client
without_header c = record c {
  parser_last_was_value = true;
  parser_header_field = none;
  parser_header_value = none;
}

abbrev pub with_headers : Client → Map.Table CString → Client
with_headers c headers = record c { request = record (c.request) { headers = headers } }

pub save_header-with_header :
    (c : Client) (name value : Block)
    → save_header (with_header c name value) ≡ (
        Map.insert c.request.headers (kept name) (kept value) >>= λ m.
        ok (without_header (with_headers c m)))
unfolding save_header save_pair
save_header-with_header c name value = rw (copy_of-builder name) (rw (copy_of-builder value) refl)

pub on_header_field-first :
    (c : Client) (name : Block) → on_header_field name (without_header c) ≡ ok (with_name c name)
unfolding on_header_field begin_field save_header
on_header_field-first c name = rw (append_n-builder [] name) refl

on_header_field-more :
    (c : Client) (name more : Block)
    → on_header_field more (with_name c name) ≡ ok (with_name c (name ++ more))
unfolding on_header_field begin_field
on_header_field-more c name more = rw (append_n-builder name more) refl

pub on_header_value-first :
    (c : Client) (name value : Block)
    → on_header_value value (with_name c name) ≡ ok (with_header c name value)
unfolding on_header_value begin_value
on_header_value-first c name value = rw (append_n-builder [] value) refl

-- A name and then its value, and the end of the header: the pair is put into the map of the
-- request, and nothing of it stays at hand.
pub save_header-collected :
    (c : Client) (name value : Block)
    → (on_header_field name (without_header c) >>= λ d. on_header_value value d >>= save_header) ≡ (
        Map.insert c.request.headers (kept name) (kept value) >>= λ m.
        ok (without_header (with_headers c m)))
save_header-collected c name value =
    rw (on_header_field-first c name)
      (rw (on_header_value-first c name value) (save_header-with_header c name value))

-- The client at the start of a next name, whose builder is still empty.
abbrev pub at_name : Client → Map.Table CString → Client
at_name c m = record (without_header (with_headers c m)) { parser_header_field = some (builder []) }

begin_field-with_header :
    (c : Client) (name value : Block)
    → begin_field (with_header c name value)
      ≡ (Map.insert c.request.headers (kept name) (kept value) >>= λ m. ok (at_name c m))
unfolding begin_field StringBuilder.init
begin_field-with_header c name value =
    rw (save_header-with_header c name value)
      (go (Map.insert c.request.headers (kept name) (kept value)))
  where
    go :
        (r : Result (Map.Table CString))
        → ((r >>= λ m. ok (without_header (with_headers c m))) >>= λ d.
            StringBuilder.init >>= λ sb. ok (record d { parser_header_field = some sb }))
          ≡ (r >>= λ m. ok (at_name c m))
    go (ok m) = refl
    go (err e) = refl

-- A next name puts the pair before it into the map, and is at hand then.
pub on_header_field-next :
    (c : Client) (name value next : Block)
    → on_header_field next (with_header c name value) ≡ (
        Map.insert c.request.headers (kept name) (kept value) >>= λ m.
        ok (with_name (with_headers c m) next))
unfolding on_header_field
on_header_field-next c name value next =
    rw (begin_field-with_header c name value)
      (go (Map.insert c.request.headers (kept name) (kept value)))
  where
    go :
        (r : Result (Map.Table CString))
        → ((r >>= λ m. ok (at_name c m)) >>= λ d.
            from_option d.parser_header_field null_pointer >>= λ field.
            append_n field next (length next) >>= λ sb.
            ok (record d { parser_header_field = some sb; parser_last_was_value = false }))
          ≡ (r >>= λ m. ok (with_name (with_headers c m) next))
    go (ok m) = rw (append_n-builder [] next) refl
    go (err e) = refl

-- A name whose value never came is joined with the next name: the value of the second is stored
-- under the two names written together.
pub save_header-joined :
    (c : Client) (lost name value : Block)
    → (on_header_field lost (without_header c) >>= λ d.
        on_header_field name d >>= λ e. on_header_value value e >>= save_header)
      ≡ (Map.insert c.request.headers (kept (lost ++ name)) (kept value) >>= λ m.
          ok (without_header (with_headers c m)))
save_header-joined c lost name value = rw (on_header_field-first c lost) (
    rw (on_header_field-more c lost name) (
      rw (on_header_value-first c (lost ++ name) value)
        (save_header-with_header c (lost ++ name) value)))
