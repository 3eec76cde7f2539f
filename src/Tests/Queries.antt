-- ===== src/Tests/Queries.antt =====
-- Requests with a query, at small inputs.
use librestserver.Libc.{Block}
use librestserver.Util.Map
use librestserver.Parser.State.{Parser}
use librestserver.Client.State.{Site}
use librestserver.Client.State as ClientState
use librestserver.Client.Answer.Targets.{pair_text, bad_text}
use librestserver.Prelude.{[], ◌∷◌}

-- The urls `/?a=1` and `/?a=1=2`, in requests without a body.
abbrev one_pair : Block
one_pair = pair_text (b'a' ∷ []) (b'1' ∷ [])

abbrev two_equals : Block
two_equals = bad_text (b'a' ∷ []) (b'1' ∷ []) (b'2' ∷ [])
