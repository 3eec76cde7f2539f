-- ===== src/Service/Accepted.antt =====
-- A client that was just accepted, as RST_client_init of rstclient.c makes it.
use librestserver.Http.Request.{string_map}
use librestserver.Http.Request
use librestserver.Parser.State.{Parser, Method, get, post, put, delete, finished}
use librestserver.Parser.State
use librestserver.Parser.Execute.Request.{IsFresh}
use librestserver.Util.StringBuilder
use librestserver.Client.State.{Client, Site, Session}
use librestserver.Client.State as ClientState
use librestserver.Client.Answer.Complete.{IsUnused}
use librestserver.Client.Answer.Targets.{string_map-IsMap}
use librestserver.Prelude.{subst, ℕ, ◌≡◌, refl, sym, ◌∙◌, false, Result, ok}

-- A client and its parser before the first byte.
pub record IsNew (socket : ℕ) (c : Client × Parser) : Type 0 where
  pub unused : IsUnused c.0
  pub fresh : IsFresh c.1
  pub no_length : (c.1).content_length ≡ 0
  pub same_socket : (c.0).socket ≡ socket
  pub no_websocket : (c.0).upgrade_websocket ≡ false

-- What RST_client_init gives is ready for a request.
init-IsNew :
    (socket : ℕ) → (c : Client × Parser) × (ClientState.init socket ≡ ok c) × IsNew socket c
unfolding ClientState.init Request.init State.init StringBuilder.init
init-IsNew socket = (
  _,
  refl,
  record {
    unused = record {
      no_url = refl;
      no_body = refl;
      none_at_hand = refl;
      no_params = refl;
      no_headers = string_map-IsMap;
    };
    fresh = record {
      in_state = refl;
      empty = record { exact = refl; counted = refl };
      at_start = refl;
      unread = refl;
    };
    no_length = refl;
    same_socket = refl;
    no_websocket = refl;
  },
)

pub accepted-IsNew :
    (socket : ℕ) (c : Client × Parser) → ClientState.init socket ≡ ok c → IsNew socket c
accepted-IsNew socket c e =
    let (d, f, new) = init-IsNew socket in subst (IsNew socket) (inner (sym f ∙ e)) new
  where
    inner : {x y : Client × Parser} → ◌≡◌ {A = Result (Client × Parser)} (ok x) (ok y) → x ≡ y
    inner e = cc
