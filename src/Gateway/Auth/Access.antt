-- ===== src/Gateway/Auth/Access.antt =====
-- Who passes the gateway, and what the audit queue hears of the others.
use entropy_gen.Common.{◌≡◌, ◌⊎◌, Bool, true, false, some, ◌++◌, if◌then◌else◌}
use entropy_gen.Common.Text.{Text, text, has_prefix}
use entropy_gen.Common.Dict.{Dict, lookup}
use entropy_gen.Common.Fallible.{Error, other, Result, ok, err}
use entropy_gen.Events.{Value, str}
use entropy_gen.Gateway.Auth.{JwtParser, Token, Request}

-- The key function in short: the secret for a method of HMAC, and an error for any other.
abbrev pub hmac_key : Text → Bool → Text → Result Text
hmac_key secret hmac alg =
    if hmac then ok secret else err (other (text "unexpected signing method: " ++ alg))

-- The token of a bearer header was parsed and is valid.
abbrev pub Accepts : JwtParser → Text → Request → Token → Type 0
Accepts parser secret r t =
    (token : Text) × (r.authorization ≡ text "Bearer " ++ token)
    × (parser.parse token (hmac_key secret) ≡ ok t)
    × (t.valid ≡ true)

-- There is no bearer token, or it was not parsed, or it is not valid.
abbrev pub Rejects : JwtParser → Text → Request → Type 0
Rejects parser secret r =
    (has_prefix r.authorization (text "Bearer ") ≡ false)
    ⊎ ((token : Text) × (r.authorization ≡ text "Bearer " ++ token)
        × (((e : Error) × (parser.parse token (hmac_key secret) ≡ err e))
            ⊎ ((t : Token) × (parser.parse token (hmac_key secret) ≡ ok t) × (t.valid ≡ false))))

-- What is assumed of the JWT library: a token that HS256 signed with the key is valid to a parser
-- whose key function answers that key for HMAC, and its text claims are those that were signed where
-- they are valid UTF-8, as `is_utf8` tells.
pub record Hs256 (sign : Text → Dict Value → Text → Result Text) (parser : JwtParser) : Type 0 where
  pub is_utf8 : Text → Bool
  pub accepts :
      (claims : Dict Value) (key token : Text) (choose : Bool → Text → Result Text)
      → sign (text "HS256") claims key ≡ ok token
      → choose true (text "HS256") ≡ ok key
      → (t : Token) × (parser.parse token choose ≡ ok t)
        × (t.valid ≡ true)
        × ((name value : Text)
            → lookup name claims ≡ some (str value)
            → is_utf8 value ≡ true
            → t.claims name ≡ value)
