-- ===== src/Backend/Handlers/Auth/Sessions.antt =====
-- A token of the login is good for the user's own role, for a day.
use entropy_gen.Common.{
  ℕ, ◌+◌, ◌<◌, ◌≡◌, refl, Bool, true, false, Option, none, some, ◌++◌, if◌then◌else◌,
}
use mathlib.Core.Path.{subst}
use mathlib.Core.Option.{some-injective}
use entropy_gen.Common.Text.{Text, text, has_prefix-append, after_prefix-append}
use entropy_gen.Common.Fallible.{Result, ok, err, Action}
use entropy_gen.Backend.Handlers.{Answer, success, with_body}
use entropy_gen.Backend.Handlers.Auth.{
  User, Credentials, Claims, AuthHandler, day, invalid_credentials, signed_answer, issue,
  check_password, check_user, log_in, login, role_or_member, identify,
}

-- What the JWT library documents: what was signed with a secret is read back with it until it
-- expires.
pub record JwtLaws {W : Type 0} (h : AuthHandler W) : Type 0 where
  pub parse_signed :
      (c : Claims) (token : Text) (time : ℕ)
      → h.sign h.secret c ≡ ok token
      → time < c.exp
      → h.parse h.secret time token ≡ some (record { sub = some c.sub; role = some c.role })

ok_inj : {A : Type 0} {a b : A} → ok a ≡ ok b → a ≡ b
ok_inj h = cc

module _ {W : Type 0} (h : AuthHandler W) where
  signed_ok : (r : Result Text) (token : Text) → signed_answer r ≡ success 200 token → r ≡ ok token
  signed_ok (ok t) token e = cc
  signed_ok (err x) token e = cc

  passed :
      (b : Bool) (r : Answer Text × W) (w : W) (token : Text)
      → (if b then r else (invalid_credentials, w)).0 ≡ success 200 token
      → (b ≡ true) × (r.0 ≡ success 200 token)
  passed true r w token done = (refl, done)
  passed false r w token done = cc

  Signs : Text → Text → ℕ → Text → Type 0
  Signs username role time token =
      h.sign h.secret (record { sub = username; role = role; iat = time; exp = time + day })
      ≡ ok token

  password_checked :
      (hash password username role token : Text) (w : W)
      → (check_password h hash password username role w).0 ≡ success 200 token
      → (h.matches hash password ≡ true) × Signs username role (h.now w).0 token
  unfolding check_password issue Signs
  password_checked hash password username role token w done =
      let (same, issued) =
        passed (h.matches hash password) (issue h username role w) w token done in
      (same, signed_ok _ token issued)

  user_checked :
      (c : Credentials) (found : Result (Option User) × W) (u : User) (token : Text)
      → found.0 ≡ ok (some u)
      → (check_user h c found).0 ≡ success 200 token
      → (h.matches u.password_hash c.password ≡ true)
        × Signs c.username u.role (h.now found.1).0 token
  unfolding check_user
  user_checked c (ok none, w) u token e done = cc
  user_checked c (err x, w) u token e done = cc
  user_checked c (ok (some v), w) u token e done =
      subst
        (λ x.
          (h.matches x.password_hash c.password ≡ true) × Signs c.username x.role (h.now w).0 token)
        (some-injective v u (ok_inj e))
        (password_checked v.password_hash c.password c.username v.role token w done)

  -- Where users are stored: if a login for a user that the store finds gives a token, the password
  -- is the user's, and for a day a request with that token is taken as the user's, with the role
  -- that is stored, or member if that is empty.
  pub login_lem :
      (laws : JwtLaws h) (find : Text → Action W (Option User)) (c : Credentials) (u : User)
      (token : Text) (time : ℕ) (w : W)
      → h.find_user ≡ some find
      → (find c.username w).0 ≡ ok (some u)
      → (login h (ok c) w).0 ≡ success 200 token
      → time < (h.now (find c.username w).1).0 + day
      → (h.matches u.password_hash c.password ≡ true)
        × (identify h time (text "Bearer " ++ token)
            ≡ record { username = some c.username; role = role_or_member (some u.role) })
  unfolding login with_body log_in identify Signs
  login_lem laws find c u token time w store found done early =
      let checked = subst (λ s. (log_in h s c w).0 ≡ success 200 token) store done in
      let (same, signed) = user_checked c (find c.username w) u token found checked in
      (
        same,
        rw
            (
              has_prefix-append (text "Bearer ") token,
              after_prefix-append (text "Bearer ") token,
              laws.parse_signed _ token time signed early,
            )
            refl,
      )
