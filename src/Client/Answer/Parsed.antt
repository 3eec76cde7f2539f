-- ===== src/Client/Answer/Parsed.antt =====
-- The url of a request split into its path and its parameters.
use librestserver.Libc.{Block, offset}
use librestserver.Libc.Bytes.{Lacks, offset-append, pass_byte}
use librestserver.Util.Num.{CString}
use librestserver.Util.Map.{Table}
use librestserver.Util.StringBuilder.{alloc_string_n}
use librestserver.Util.StringBuilder.Laws.{alloc_string_n-take}
use librestserver.Http.Request.{Request}
use librestserver.Http.Query.{parse_query_string}
use librestserver.Parser.Url.{UrlParts, parse_url}
use librestserver.Parser.Url.Laws.{parse_url_plain, parse_url_query}
use librestserver.Client.Collect.Headers.{builder}
use librestserver.Client.Answer.{parse_query}
use librestserver.Prelude.{
  ℕ, suc, ◌+◌, ◌≡◌, refl, ap, ap₂, ◌∙◌, Bool, true, false, [], ◌∷◌, ◌++◌, append_assoc, arith, ◌==◌,
  length, length-append, take-length-append, ok,
}

-- The url has this path, and its query makes the parameters `old` into `params`, or fails.
pub record IsParsed (old : Table CString) (url path : Block) (params : Table CString) (good : Bool)
    : Type 0 where
  pub parts : UrlParts
  pub divided : parse_url (url ++ (0 ∷ [])) (length url) ≡ ok parts
  pub copied : alloc_string_n (url ++ (0 ∷ [])) parts.plen ≡ ok (path ++ (0 ∷ []))
  pub read :
      (q : Request)
      → q.url ≡ builder url
      → q.query_params ≡ old
      → parse_query q parts.qoff parts.qlen ≡ ok (record q { query_params = params }, good)

copy_front :
    (path rest : Block) → alloc_string_n (path ++ rest) (length path) ≡ ok (path ++ (0 ∷ []))
copy_front path rest =
    alloc_string_n-take (path ++ rest) (length path) (omega (arith, length-append path rest))
    ∙ ap (λ l. ok (l ++ (0 ∷ []))) (take-length-append path rest)

pub plain-IsParsed :
    (old : Table CString) (url : Block) → Lacks b'?' url → IsParsed old url url old true
unfolding parse_query
plain-IsParsed old url plain = record {
  parts = record { plen = length url; qoff = length url; qlen = 0 };
  divided = parse_url_plain url [] plain;
  copied = copy_front url (0 ∷ []);
  read = λ q e f. ap (λ t. ok (record q { query_params = t }, true)) f;
}

offset-behind :
    (path : Block) (b : ℕ) (rest : Block) → offset (path ++ (b ∷ rest)) (length path + 1) ≡ ok rest
offset-behind path b rest =
    let (e, k) = pass_byte path b rest in ap₂ offset e k ∙ offset-append (path ++ (b ∷ [])) rest

pub query-IsParsed :
    (old : Table CString) (path query : Block) (params : Table CString) (good : Bool)
    → Lacks b'?' path
    → (length query == 0) ≡ false
    → parse_query_string old (query ++ (0 ∷ [])) (length query) ≡ ok (params, good)
    → IsParsed old (path ++ (b'?' ∷ query)) path params good
unfolding parse_query
query-IsParsed old path query params good plain some_bytes parsed =
    let url = path ++ (b'?' ∷ query) in
    let ended : url ++ (0 ∷ []) ≡ path ++ (b'?' ∷ (query ++ (0 ∷ []))) =
      append_assoc path (b'?' ∷ query) (0 ∷ []) in
    let size : length url ≡ length path + suc (length query) = length-append path (b'?' ∷ query) in
    record {
      parts = record { plen = length path; qoff = length path + 1; qlen = length query };
      divided = ap₂ parse_url ended size ∙ parse_url_query path query (0 ∷ []) plain;
      copied =
          ap (λ l. alloc_string_n l (length path)) ended
          ∙ copy_front path (b'?' ∷ (query ++ (0 ∷ [])));
      read = λ q e f.
          let behind : offset q.url.buf (length path + 1) ≡ ok (query ++ (0 ∷ [])) =
            ap (λ u. offset u.buf (length path + 1)) e
            ∙ ap (λ l. offset l (length path + 1)) ended
            ∙ offset-behind path b'?' (query ++ (0 ∷ [])) in
          let counted : parse_query_string q.query_params (query ++ (0 ∷ [])) (length query)
              ≡ ok (params, good) =
            ap (λ m. parse_query_string m (query ++ (0 ∷ [])) (length query)) f ∙ parsed in
          rw some_bytes (rw behind (rw counted refl));
    }
