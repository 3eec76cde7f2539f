-- ===== src/App/Files.antt =====
-- Which file the generic handler of the test application opens.
use librestserver.Libc.{Block, find_text, text_of}
use librestserver.Libc.Strings.{IsText, IsText-append, text_of-text}
use librestserver.Util.StringBuilder.Laws.{Spells}
use librestserver.Util.Replace.{str_replace}
use librestserver.Util.Replace.Dots.{dots, str_replace-dots}
use librestserver.Http.Request.{Request}
use librestserver.Http.Response.{Response, set_not_found}
use librestserver.App.{max_file_path, clear_path, answer_file, generic_handler}
use librestserver.Prelude.{
  ◌+◌, ◌≡◌, ap, ◌∙◌, Option, none, some, [], ◌∷◌, ◌++◌, leb, if◌then◌else◌, length, Result, ok,
  ◌>>=◌,
}

clear_path-of :
    (root : Block) (files : Block → Option Block) (q : Request) (url out : Block)
    → text_of q.url.buf ≡ ok url
    → str_replace (some ((root ++ url) ++ (0 ∷ []))) (some (dots ++ (0 ∷ []))) (some (0 ∷ []))
      ≡ ok (some (out ++ (0 ∷ [])))
    → text_of (out ++ (0 ∷ [])) ≡ ok out
    → clear_path root files q ≡ ok out
unfolding clear_path
clear_path-of root files q url out e f g = rw e (rw f g)

module _ (root : Block) (files : Block → Option Block) where
  -- The path that is made of the document root and the url has no ".." in it.
  clear_path-dots :
      (q : Request) (url : Block)
      → Spells q.url url
      → IsText root
      → IsText url
      → (path : Block) × (clear_path root files q ≡ ok path) × (find_text path dots ≡ none)
  clear_path-dots q url h p k =
      let (out, e, clean, text) = str_replace-dots (root ++ url) (IsText-append root url p k) in
      let read : text_of q.url.buf ≡ ok url = ap text_of h.exact ∙ text_of-text url [] k in
      (out, clear_path-of root files q url out read e (text_of-text out [] text), clean)

  -- The generic handler answers with the contents of the file at a path without "..", or says that
  -- nothing was found: where there is no such file, or the path would be too long.
  pub generic_handler-dots :
      (q : Request) (r : Response) (url : Block)
      → Spells q.url url
      → IsText root
      → IsText url
      → (path : Block) × (find_text path dots ≡ none)
        × (generic_handler root files q r ≡ (
            if leb (length root + length url) max_file_path
            then elim (files path) as (λ x. Result Response) [
              | some contents ↦ answer_file root files r contents
              | none ↦ set_not_found r q none
            ]
            else set_not_found r q none))
  unfolding generic_handler
  generic_handler-dots q r url h p k =
      let (path, e, clean) = clear_path-dots q url h p k in (path, clean, go path e h.counted)
    where
      opened : Block → Result Response
      opened path = elim (files path) as (λ x. Result Response) [
        | some contents ↦ answer_file root files r contents
        | none ↦ set_not_found r q none
      ]

      go :
          (path : Block)
          → clear_path root files q ≡ ok path
          → q.url.len ≡ length url
          → generic_handler root files q r ≡ (
              if leb (length root + length url) max_file_path
              then opened path
              else set_not_found r q none)
      go path e n =
          ap
            (λ l.
              if leb (length root + l) max_file_path
              then (clear_path root files q >>= λ f. opened f)
              else set_not_found r q none)
            n
          ∙ ap
              (λ m.
                if leb (length root + length url) max_file_path
                then (m >>= λ f. opened f)
                else set_not_found r q none)
              e
