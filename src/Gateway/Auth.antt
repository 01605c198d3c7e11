-- ===== src/Gateway/Auth.antt =====
-- internal/gateway/handler/auth.go and heartbeat.go. The JWT parser is a parameter: it is given the
-- function that chooses the key by the token's method.
pub mod Access
use entropy_gen.Common.{
  ℕ, Bool, true, false, Option, none, some, List, [], ◌∷◌, ◌++◌, if◌then◌else◌,
}
use entropy_gen.Common.Text.{Text, text, has_prefix, trim_prefix}
use entropy_gen.Common.Dict.{Dict, insert}
use entropy_gen.Common.Fallible.{Error, message, other, wrap, Result, ok, err}
use entropy_gen.Events.{Value, str, Codec, Event}
use entropy_gen.Gateway.Audit.{Queue, enqueue}

-- What the parser learns of a token. A claim that is no text, or missing, reads as the empty text.
pub record Token : Type 0 where
  pub valid : Bool
  pub claims : Text → Text

-- jwt.Parser.Parse, without validation of the claims' times: the key function is given whether the
-- method is one of HMAC.
pub record JwtParser : Type 0 where
  pub parse : Text → (Bool → Text → Result Text) → Result Token

pub record Request : Type 0 where
  pub method : Text
  pub path : Text
  pub raw_path : Text
  pub headers : Dict Text
  pub authorization : Text
  pub body : Option Text

-- The identity that the context carries to the next handler.
pub record Identity : Type 0 where
  pub agent_id : Text
  pub agent_role : Text

unfoldable pub choose_key : Text → Bool → Text → Result Text
choose_key secret true alg = ok secret
choose_key secret false alg = err (other (text "unexpected signing method: " ++ alg))

unfoldable pub check_token : Result Token → Result Token
check_token (err e) = err (wrap (text "token parse error") e)
check_token (ok t) = if t.valid then ok t else err (other (text "token is not valid"))

unfoldable pub verify_token : JwtParser → Text → Request → Result Token
unfolding choose_key check_token
verify_token parser secret r =
    if has_prefix r.authorization (text "Bearer ")
    then check_token
        (parser.parse (trim_prefix r.authorization (text "Bearer ")) (choose_key secret))
    else err (other (text "missing or invalid Authorization header"))

-- The ids are those that uuid.New gives to the trace and to the event.
unfoldable pub auth_failed_event : Codec → Text → Text → ℕ → Request → Text → Event
auth_failed_event codec trace_id id now r reason = record {
  event_id = id;
  event_type = text "gateway.auth_failed";
  timestamp = now;
  agent_id = [];
  agent_role = [];
  payload = some (
      codec.marshal (
        (text "trace_id", str trace_id)
        ∷ (text "reason", str reason)
        ∷ (text "path", str r.path)
        ∷ (text "method", str r.method)
        ∷ []));
}

-- What Wrap does: an answer of its own, or a call of the next handler.
pub data Verdict : Type 0 where
  refused : ℕ → Verdict
  passed : Identity → Request → Verdict

unfoldable pub identity_of : Token → Identity
identity_of t = record {
  agent_id = t.claims (text "agent_id");
  agent_role = t.claims (text "agent_role");
}

unfoldable pub with_identity : Identity → Request → Request
with_identity i r = record r {
  headers =
      insert (text "X-Agent-Role") i.agent_role (insert (text "X-Agent-ID") i.agent_id r.headers);
}

unfoldable pub authenticate :
    JwtParser → Codec → Text → Text → Text → ℕ → Request → Queue → Verdict × Queue
unfolding verify_token auth_failed_event identity_of with_identity
authenticate parser codec secret trace_id id now r q = elim (verify_token parser secret r) [
  | err e ↦ (refused 401, enqueue (auth_failed_event codec trace_id id now r (message e)) q)
  | ok t ↦ (passed (identity_of t) (with_identity (identity_of t) r), q)
]

-- The heartbeat handler's event.
unfoldable pub heartbeat_event : Codec → Text → Text → ℕ → Identity → Event
heartbeat_event codec trace_id id now i = record {
  event_id = id;
  event_type = text "gateway.heartbeat";
  timestamp = now;
  agent_id = i.agent_id;
  agent_role = i.agent_role;
  payload =
      some
        (codec.marshal ((text "trace_id", str trace_id) ∷ (text "status", str (text "ok")) ∷ []));
}

unfoldable pub heartbeat : Codec → Text → Text → ℕ → Identity → Queue → Queue
unfolding heartbeat_event
heartbeat codec trace_id id now i q = enqueue (heartbeat_event codec trace_id id now i) q
