-- ===== src/Client/Collect/Message.antt =====
-- What the callbacks of rstclient.c make of the lines of a whole header, and of a url and a body.
use librestserver.Libc.{Block}
use librestserver.Libc.Strings.{IsText}
use librestserver.Util.Num.{CString}
use librestserver.Util.Keys.{IsKey, same_string}
use librestserver.Util.Map.{Table}
use librestserver.Util.Map
use librestserver.Util.Map.Shape.{inserted}
use librestserver.Util.Map.Laws.{IsMap, find-insert}
use librestserver.Parser.Execute.Headers.{Field, AllFields, name_of, value_of, tell_fields}
use librestserver.Parser.Execute.Body.{delivered}
use librestserver.Server.State.{Server}
use librestserver.Client.State.{Client, Site, Session}
use librestserver.Client.Collect.{save_header, on_header_field, on_url, on_body}
use librestserver.Client.Collect.Headers.{
  kept, builder, append_n-builder, with_header, with_name, without_header, with_headers,
  save_header-with_header, on_header_field-first, on_header_value-first, on_header_field-next,
}
use librestserver.Client.Answer.{settings}
use librestserver.Prelude.{
  ℕ, ◌≡◌, refl, ap, ◌∙◌, Option, none, some, List, [], ◌∷◌, Result, ok, ◌>>=◌,
}

-- The header that is at hand, if there is one.
abbrev pub Waiting : Type 0
Waiting = Option (Block × Block)

abbrev pub IsWaiting : Waiting → Type 0
IsWaiting none = Unit
IsWaiting (some (name, value)) = IsText name

-- The client with the map `m`, and with this header at hand.
abbrev pub holding : Client → Table CString → Waiting → Client
holding c m none = without_header (with_headers c m)
holding c m (some (name, value)) = with_header (with_headers c m) name value

abbrev pub Pairs : Type 0
Pairs = List (CString × CString)

abbrev pub settled : Waiting → Pairs → Pairs
settled none ps = ps
settled (some (name, value)) ps = inserted same_string IsKey (kept name) (kept value) ps

-- The headers of a request, by the lines of its text: of two lines with one name, the first counts.
abbrev pub collected : List Field → Pairs → Pairs
collected [] ps = ps
collected (f ∷ fs) ps =
    collected fs (inserted same_string IsKey (kept (name_of f)) (kept (value_of f)) ps)

insert-kept :
    {m : Table CString} {ps : Pairs} (name value : Block)
    → IsMap same_string IsKey m ps
    → IsText name
    → (n : Table CString) × (Map.insert m (kept name) (kept value) ≡ ok n)
      × IsMap same_string IsKey n (inserted same_string IsKey (kept name) (kept value) ps)
insert-kept name value h text =
    let (n, e, g, _) =
      find-insert same_string IsKey (kept name) (kept value) (kept name) h (name, text, refl)
        (name, text, refl) in
    (n, e, g)

-- A next name settles what is at hand.
on_header_field-holding :
    (c : Client) {m : Table CString} {ps : Pairs} (w : Waiting) (name : Block)
    → IsMap same_string IsKey m ps
    → IsWaiting w
    → (n : Table CString) × (on_header_field name (holding c m w)
        ≡ ok (with_name (with_headers c n) name))
      × IsMap same_string IsKey n (settled w ps)
on_header_field-holding c {m} none name h waits =
    (m, on_header_field-first (with_headers c m) name, h)
on_header_field-holding c {m} (some (first, value)) name h waits =
    let (n, e, g) = insert-kept first value h waits in
    (n, on_header_field-next (with_headers c m) first value name ∙ rw e refl, g)

-- The end of the message settles what is at hand.
pub save_header-holding :
    (c : Client) {m : Table CString} {ps : Pairs} (w : Waiting)
    → IsMap same_string IsKey m ps
    → IsWaiting w
    → (n : Table CString) × (save_header (holding c m w) ≡ ok (without_header (with_headers c n)))
      × IsMap same_string IsKey n (settled w ps)
unfolding save_header
save_header-holding c {m} none h waits = (m, refl, h)
save_header-holding c {m} (some (name, value)) h waits =
    let (n, e, g) = insert-kept name value h waits in
    (n, save_header-with_header (with_headers c m) name value ∙ rw e refl, g)

abbrev pub with_body : Client → Block → Client
with_body c bytes = record c { request = record (c.request) { body = builder bytes } }

abbrev pub with_url : Client → Block → Client
with_url c url = record c { request = record (c.request) { url = builder url } }

module _ (site : Site) (taken : ℕ → Option ℕ) where
  abbrev told : Session → Block → Block → Result Session
  told s name value =
      (settings site taken).on_header_field name s >>= (settings site taken).on_header_value value

  -- One line.
  tell_field-holding :
      (c : Client) (server : Server) {m : Table CString} {ps : Pairs} (w : Waiting)
      (name value : Block)
      → IsMap same_string IsKey m ps
      → IsWaiting w
      → (n : Table CString) × (told (record { client = holding c m w; server = server }) name value
          ≡ ok (record { client = holding c n (some (name, value)); server = server }))
        × IsMap same_string IsKey n (settled w ps)
  unfolding settings
  tell_field-holding c server w name value h waits =
      let (n, e, g) = on_header_field-holding c w name h waits in
      (n, rw e (rw (on_header_value-first (with_headers c n) name value) refl), g)

  -- The lines of a header: what they settle and what is at hand behind them are together their
  -- pairs.
  pub tell_fields-holding :
      (fs : List Field) (c : Client) (server : Server) {m : Table CString} {ps : Pairs}
      (w : Waiting)
      → IsMap same_string IsKey m ps
      → IsWaiting w
      → AllFields fs
      → (n : Table CString) × (v : Waiting) × (qs : Pairs) × (tell_fields
            (settings site taken)
            fs
            (record { client = holding c m w; server = server })
          ≡ ok (record { client = holding c n v; server = server }))
        × IsMap same_string IsKey n qs
        × IsWaiting v
        × (settled v qs ≡ collected fs (settled w ps))
  tell_fields-holding [] c server {m} {ps} w h waits fields = (m, w, ps, refl, h, waits, refl)
  tell_fields-holding (f ∷ fs) c server w h waits fields =
      let (n, e, g) = tell_field-holding c server w (name_of f) (value_of f) h waits in
      let (k, v, qs, e2, g2, waits2, same) =
        tell_fields-holding fs c server (some (name_of f, value_of f)) g fields.0.name_text
          fields.1 in
      (k, v, qs, ap (λ r. r >>= tell_fields (settings site taken) fs) e ∙ e2, g2, waits2, same)

  pub on_url-first :
      (c : Client) (server : Server) (url : Block)
      → c.request.url ≡ builder []
      → (settings site taken).on_url url (record { client = c; server = server })
        ≡ ok (record { client = with_url c url; server = server })
  unfolding settings on_url
  on_url-first c server url e = rw e (rw (append_n-builder [] url) refl)

  pub delivered-first :
      (c : Client) (server : Server) (bytes : Block)
      → c.request.body ≡ builder []
      → delivered (settings site taken) bytes (record { client = c; server = server })
        ≡ ok (record { client = with_body c bytes; server = server })
  unfolding settings on_body
  delivered-first c server [] e =
      ap
        (λ b. ok (record {
          client = record c { request = record (c.request) { body = b } };
          server = server;
        }))
        e
  delivered-first c server (b ∷ bytes) e = rw e (rw (append_n-builder [] (b ∷ bytes)) refl)
