-- ===== src/Tests/Headers.antt =====
-- A header looked up in a request, at a small input.
use librestserver.Libc.{codes}
use librestserver.Http.Request.{Request, string_map}
use librestserver.Client.Collect.Headers.{kept}
use librestserver.Tests.Client
use librestserver.Prelude.{none, some, [], ◌∷◌}

abbrev asked : Request
asked = record (Client.request) {
  headers = record (string_map) {
    v = record {
      slots = some (kept (codes "Content-Length")) ∷ some (kept (codes "2")) ∷ [];
      size = 2;
      capacity = 2;
      destructor = none;
    };
  };
}
