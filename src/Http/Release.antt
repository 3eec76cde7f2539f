-- ===== src/Http/Release.antt =====
-- RST_response_release of librestserver/response.c and RST_request_release of librestserver/request.c.
use librestserver.Util.Free.{free_string, run_calls}
use librestserver.Util.Map.Release.{IsString, IsReleasable, release-IsReleasable}
use librestserver.Util.Map
use librestserver.Http.Request.{Request}
use librestserver.Http.Request
use librestserver.Http.Response.{Response}
use librestserver.Http.Response
use librestserver.Prelude.{◌≡◌, sym, ap, ◌∙◌, ok, ◌>>=◌, >>=_assoc}

-- A response with a status message, and without null pointers in its headers.
pub record IsOwned (r : Response) : Type 0 where
  pub named : IsString r.status_message
  pub owned : IsReleasable r.headers

pub release-IsOwned : (r : Response) → IsOwned r → Response.release r ≡ ok tt
unfolding Response.release free_string
release-IsOwned r h = let (s, e) = h.named in rw e (release-IsReleasable r.headers h.owned)

-- A request without null pointers in its headers and its parameters is released.
pub release-request :
    (q : Request) → IsReleasable q.headers → IsReleasable q.query_params → Request.release q ≡ ok tt
unfolding Request.release
release-request q h k =
    sym (
      >>=_assoc (Map.release q.headers) run_calls
        (λ freed. Map.release q.query_params >>= run_calls))
    ∙ ap (λ r. r >>= λ freed. Map.release q.query_params >>= run_calls)
        (release-IsReleasable q.headers h)
    ∙ release-IsReleasable q.query_params k
