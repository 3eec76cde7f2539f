-- ===== src/Client/Collect/Lookup.antt =====
-- RST_request_get_header_value of librestserver/request.c on the headers that the client collected.
use librestserver.Libc.{Block}
use librestserver.Libc.Strings.{same_text}
use librestserver.Util.Num.{CString}
use librestserver.Util.Keys.{IsKey, same_string}
use librestserver.Util.Map.Shape.{inserted}
use librestserver.Http.Request.{Request}
use librestserver.Parser.Execute.Headers.{Field, name_of, value_of}
use librestserver.Client.Collect.Headers.{kept}
use librestserver.Client.Collect.Message.{Pairs}
use librestserver.Prelude.{Option, none, some, List, [], ◌∷◌, if◌then◌else◌}

-- The value of the first line with this name.
unfoldable pub first_value : Block → List Field → Option CString
first_value name [] = none
first_value name (f ∷ fs) =
    if same_text name (name_of f) then some (kept (value_of f)) else first_value name fs

abbrev or_else : Option CString → Option CString → Option CString
or_else none y = y
or_else (some x) y = some x

-- What a search finds when one more pair comes in.
module _ (j k v : CString) (ps : Pairs) where
  abbrev with_pair : Pairs
  with_pair = inserted same_string IsKey k v ps
