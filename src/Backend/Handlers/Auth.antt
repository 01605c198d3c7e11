-- ===== src/Backend/Handlers/Auth.antt =====
-- internal/backend/handler/auth.go: the login, and who a request is from. bcrypt, the JWT library,
-- the clock and the user store are parameters.
pub mod Sessions
use entropy_gen.Common.{
  ℕ, ◌+◌, Bool, true, false, ◌||◌, Option, none, some, List, [], ◌∷◌, any, if◌then◌else◌,
}
use entropy_gen.Common.Text.{Text, text, text_eq, has_prefix, trim_prefix, is_empty}
use entropy_gen.Common.Fallible.{Error, message, Result, ok, err, Action}
use entropy_gen.Backend.Handlers.{Answer, success, failure, with_body}
use entropy_gen.Backend.Handlers.Roles.{bad_request}

pub record User : Type 0 where
  pub id : ℕ
  pub username : Text
  pub password_hash : Text
  pub role : Text
  pub created_at : ℕ
  pub updated_at : ℕ

pub record Credentials : Type 0 where
  pub username : Text
  pub password : Text

-- Times in seconds.
pub record Claims : Type 0 where
  pub sub : Text
  pub role : Text
  pub iat : ℕ
  pub exp : ℕ

-- What a valid token says: a role that is no text is `none`.
pub record Parsed : Type 0 where
  pub sub : Option Text
  pub role : Option Text

-- `find_user` is the store, if there is one; `parse` is jwt.Parse with HMAC at a time, `none` where
-- it gives an error or no valid token.
pub record AuthHandler (W : Type 0) : Type 0 where
  pub fallback_username : Text
  pub fallback_password_hash : Text
  pub secret : Text
  pub find_user : Option (Text → Action W (Option User))
  pub matches : Text → Text → Bool
  pub sign : Text → Claims → Result Text
  pub parse : Text → ℕ → Text → Option Parsed
  pub now : W → ℕ × W

abbrev pub day : ℕ
day = 86400

abbrev pub invalid_credentials : Answer Text
invalid_credentials =
    failure 401 (text "INVALID_CREDENTIALS") (text "invalid username or password") []

abbrev pub signed_answer : Result Text → Answer Text
signed_answer (ok token) = success 200 token
signed_answer (err e) = failure 500 (text "TOKEN_ERROR") (text "failed to sign token") []

module _ {W : Type 0} (h : AuthHandler W) where
  unfoldable pub issue : Text → Text → W → Answer Text × W
  issue username role w =
      let t = h.now w in
      (
        signed_answer
            (h.sign h.secret (record { sub = username; role = role; iat = t.0; exp = t.0 + day })),
        t.1,
      )

  unfoldable pub check_password : Text → Text → Text → Text → W → Answer Text × W
  unfolding issue
  check_password hash password username role w =
      if h.matches hash password then issue username role w else (invalid_credentials, w)

  unfoldable pub check_user : Credentials → Result (Option User) × W → Answer Text × W
  unfolding check_password
  check_user c (err e, w) = (invalid_credentials, w)
  check_user c (ok none, w) = (invalid_credentials, w)
  check_user c (ok (some u), w) = check_password u.password_hash c.password c.username u.role w

  unfoldable pub log_in : Option (Text → Action W (Option User)) → Credentials → W → Answer Text × W
  unfolding check_user
  log_in (some find) c w = check_user c (find c.username w)
  log_in none c w =
      if text_eq c.username h.fallback_username
      then check_password h.fallback_password_hash c.password c.username (text "admin") w
      else (invalid_credentials, w)

  -- Login
  unfoldable pub login : Result Credentials → W → Answer Text × W
  unfolding with_body log_in
  login body w = with_body bad_request body (log_in h.find_user) w

pub record Identity : Type 0 where
  pub username : Option Text
  pub role : Text

abbrev pub guest : Identity
guest = record { username = some []; role = text "guest" }

abbrev pub role_or_member : Option Text → Text
role_or_member none = text "member"
role_or_member (some role) = if is_empty role then text "member" else role

abbrev pub identity_of : Option Parsed → Identity
identity_of none = guest
identity_of (some p) = record { username = p.sub; role = role_or_member p.role }

-- OptionalJWTMiddleware, given the Authorization header and the time.
unfoldable pub identify : {W : Type 0} → AuthHandler W → ℕ → Text → Identity
unfolding has_prefix trim_prefix
identify h time header =
    if has_prefix header (text "Bearer ")
    then identity_of (h.parse h.secret time (trim_prefix header (text "Bearer ")))
    else guest

-- RequireRole: `none` lets the request pass.
unfoldable pub require_role : List Text → Text → Option (Answer (Unit {0}))
require_role roles role =
    if any (λ r. text_eq r role) roles
    then none
    else if text_eq role (text "guest") || is_empty role
    then some (failure 401 (text "UNAUTHORIZED") (text "authentication required") [])
    else some (failure 403 (text "FORBIDDEN") (text "insufficient permissions") [])

abbrev pub refused : Text → Answer Identity
refused t = failure 401 (text "UNAUTHORIZED") t []

abbrev pub accepted : Option Parsed → Answer Identity
accepted none = refused (text "invalid or expired token")
accepted (some p) = success 200 (identity_of (some p))

-- JWTMiddleware: the identity of a request that passes, or the answer that refuses it.
unfoldable pub jwt_middleware : {W : Type 0} → AuthHandler W → ℕ → Text → Answer Identity
unfolding has_prefix trim_prefix
jwt_middleware h time header =
    if has_prefix header (text "Bearer ")
    then accepted (h.parse h.secret time (trim_prefix header (text "Bearer ")))
    else refused (text "missing bearer token")
