-- ===== src/Backend/Handlers/Users.antt =====
-- internal/backend/handler/users.go: the administration of users. The store and bcrypt are
-- parameters.
use entropy_gen.Common.{ℕ, Bool, false, ◌||◌, not, Option, none, some, List, [], if◌then◌else◌, map}
use entropy_gen.Common.Text.{Text, text, text_eq}
use entropy_gen.Common.Fallible.{message, Result, ok, err, Action}
use entropy_gen.Backend.Handlers.{Answer, success, failure, respond, with_body}
use entropy_gen.Backend.Handlers.Roles.{bad_request}
use entropy_gen.Backend.Handlers.Auth.{User, Identity}

pub record CreateUserInput : Type 0 where
  pub username : Text
  pub password_hash : Text
  pub role : Text

pub record UpdateUserInput : Type 0 where
  pub role : Option Text
  pub password_hash : Option Text

pub record CreateUserRequest : Type 0 where
  pub username : Text
  pub password : Text
  pub role : Text

pub record UpdateUserRequest : Type 0 where
  pub role : Option Text
  pub password : Option Text

pub record UserStore (W : Type 0) : Type 0 where
  pub list_users : Action W (List User)
  pub create : CreateUserInput → Action W User
  pub update : Text → UpdateUserInput → Action W User
  pub delete_named : Text → Action W (Unit {0})
  pub hash_password : Text → W → Result Text × W

-- What a user is shown as: all but the password's hash.
pub record UserInfo : Type 0 where
  pub id : ℕ
  pub username : Text
  pub role : Text
  pub created_at : ℕ
  pub updated_at : ℕ

abbrev pub user_to_json : User → UserInfo
user_to_json u = record {
  id = u.id;
  username = u.username;
  role = u.role;
  created_at = u.created_at;
  updated_at = u.updated_at;
}

unfoldable pub valid_role : Text → Bool
valid_role r = text_eq r (text "member") || text_eq r (text "admin")

abbrev pub invalid_role : Answer UserInfo
invalid_role = failure 400 (text "INVALID_ROLE") (text "role must be member or admin") []

abbrev pub hash_error : Answer UserInfo
hash_error = failure 500 (text "HASH_ERROR") (text "failed to hash password") []

abbrev pub is_invalid : Option Text → Bool
is_invalid none = false
is_invalid (some r) = not (valid_role r)

-- Whether the identity's username is a text, and this one.
abbrev pub is_named : Option Text → Text → Bool
is_named none name = false
is_named (some caller) name = text_eq caller name

module _ {W : Type 0} (s : UserStore W) where
  unfoldable pub handle_list_users : W → Answer (List UserInfo) × W
  handle_list_users w =
      respond (λ us. success 200 (map user_to_json us))
        (λ e. failure 500 (text "DB_ERROR") (text "failed to list users") (message e))
        (s.list_users w)

  unfoldable pub store_user : CreateUserRequest → Result Text × W → Answer UserInfo × W
  store_user req (err e, w) = (hash_error, w)
  store_user req (ok hash, w) =
      respond (λ u. success 201 (user_to_json u))
        (λ e. failure 409 (text "CREATE_ERROR") (message e) [])
        (s.create (record { username = req.username; password_hash = hash; role = req.role }) w)

  unfoldable pub create_checked : CreateUserRequest → W → Answer UserInfo × W
  unfolding store_user valid_role
  create_checked req w =
      if not (valid_role req.role)
      then (invalid_role, w)
      else store_user req (s.hash_password req.password w)

  unfoldable pub handle_create_user : Result CreateUserRequest → W → Answer UserInfo × W
  unfolding create_checked with_body
  handle_create_user body w = with_body bad_request body create_checked w

  unfoldable pub put_user : Text → UpdateUserInput → W → Answer UserInfo × W
  put_user username input w =
      respond (λ u. success 200 (user_to_json u))
        (λ e. failure 404 (text "UPDATE_ERROR") (message e) []) (s.update username input w)

  unfoldable pub put_hashed : Text → Option Text → Result Text × W → Answer UserInfo × W
  unfolding put_user
  put_hashed username role (err e, w) = (hash_error, w)
  put_hashed username role (ok hash, w) =
      put_user username (record { role = role; password_hash = some hash }) w

  unfoldable pub put_password : Text → Option Text → Option Text → W → Answer UserInfo × W
  unfolding put_hashed put_user
  put_password username role none w =
      put_user username (record { role = role; password_hash = none }) w
  put_password username role (some password) w =
      put_hashed username role (s.hash_password password w)

  unfoldable pub handle_update_user : Text → Result UpdateUserRequest → W → Answer UserInfo × W
  unfolding put_password with_body valid_role
  handle_update_user username body w =
      with_body bad_request body
        (λ req v.
          if is_invalid req.role
          then (invalid_role, v)
          else put_password username req.role req.password v)
        w

  unfoldable pub handle_delete_user : Identity → Text → W → Answer (Unit {0}) × W
  handle_delete_user caller username w =
      if is_named caller.username username
      then (failure 400 (text "SELF_DELETE") (text "cannot delete yourself") [], w)
      else respond (success 200) (λ e. failure 404 (text "DELETE_ERROR") (message e) [])
          (s.delete_named username w)
