-- ===== src/Client/Answer/Strings.antt =====
-- The headers and the parameters of a request are strings, which RST_request_release frees.
use librestserver.Libc.{Block}
use librestserver.Util.Num.{CString}
use librestserver.Util.Keys.{IsKey, same_string}
use librestserver.Util.Map.{Table}
use librestserver.Util.Map.Shape.{inserted, has}
use librestserver.Util.Map.Laws.{IsMap}
use librestserver.Util.Map.Release.{AllStrings, IsReleasable}
use librestserver.Parser.Execute.Headers.{Field, name_of, value_of}
use librestserver.Client.Collect.Headers.{kept}
use librestserver.Client.Collect.Message.{collected}
use librestserver.Prelude.{refl, inl, inr, List, [], ◌∷◌, ◌++◌, Bool-cases}
use librestserver.Client.Answer.Targets.{Target, plain, pair, two_pairs, refused, pairs_of}

IsMap-IsReleasable :
    {m : Table CString} (ps : List (CString × CString))
    → IsMap same_string IsKey m ps
    → AllStrings ps
    → IsReleasable m
IsMap-IsReleasable ps h strings = record {
  pairs = ps;
  stored = h.represents.holds;
  strings = strings;
}

append-AllStrings :
    (ps qs : List (CString × CString)) → AllStrings ps → AllStrings qs → AllStrings (ps ++ qs)
append-AllStrings [] qs h k = k
append-AllStrings ((key, x) ∷ ps) qs h k = (h.0, append-AllStrings ps qs h.1 k)

inserted-AllStrings :
    (name value : Block) (ps : List (CString × CString))
    → AllStrings ps
    → AllStrings (inserted same_string IsKey (kept name) (kept value) ps)
inserted-AllStrings name value ps h = elim (Bool-cases (has same_string (kept name) ps)) [
  | inl old ↦ rw old h
  | inr new ↦ rw new (
      append-AllStrings ps ((kept name, kept value) ∷ []) h
        (((name ++ (0 ∷ []), refl), (value ++ (0 ∷ []), refl)), tt))
]

-- The parameters of a url are strings.
pub pairs_of-IsReleasable :
    {m : Table CString} (t : Target) → IsMap same_string IsKey m (pairs_of t) → IsReleasable m
pairs_of-IsReleasable (plain path) h = IsMap-IsReleasable [] h tt
pairs_of-IsReleasable (pair path key value) h =
    IsMap-IsReleasable (pairs_of (pair path key value)) h
      (((key ++ (0 ∷ []), refl), (value ++ (0 ∷ []), refl)), tt)
pairs_of-IsReleasable (two_pairs path key value key2 value2) h =
    IsMap-IsReleasable (pairs_of (two_pairs path key value key2 value2)) h (
      inserted-AllStrings (key2 ++ (b'=' ∷ [])) value2 ((kept key, kept value) ∷ [])
        (((key ++ (0 ∷ []), refl), (value ++ (0 ∷ []), refl)), tt))
pairs_of-IsReleasable (refused path key value more) h = IsMap-IsReleasable [] h tt

collected-AllStrings :
    (fs : List Field) (ps : List (CString × CString)) → AllStrings ps → AllStrings (collected fs ps)
collected-AllStrings [] ps h = h
collected-AllStrings (f ∷ fs) ps h =
    collected-AllStrings fs (inserted same_string IsKey (kept (name_of f)) (kept (value_of f)) ps)
      (inserted-AllStrings (name_of f) (value_of f) ps h)

-- The collected headers are strings.
pub collected-IsReleasable :
    {m : Table CString} (fs : List Field)
    → IsMap same_string IsKey m (collected fs [])
    → IsReleasable m
collected-IsReleasable fs h = IsMap-IsReleasable (collected fs []) h (collected-AllStrings fs [] tt)
