-- ===== src/GiteaClient.antt =====
-- internal/common/giteaclient/client.go: the admin client over the Gitea SDK. The SDK's calls and
-- the HTTP client are parameters.
pub mod Issues
use entropy_gen.Common.{ℕ, ◌++◌, Bool, false, if◌then◌else◌, ltb, ◌==◌}
use entropy_gen.Common.Text.{Text, text}
use entropy_gen.Common.Fallible.{other, wrap, Result, ok, err, Action}

pub record CreateUserOption : Type 0 where
  pub username : Text
  pub email : Text
  pub password : Text
  pub must_change_password : Bool
  pub send_notify : Bool

-- A client that authenticates as the user, as sdk.SetBasicAuth makes it.
pub record BasicAuth : Type 0 where
  pub base_url : Text
  pub username : Text
  pub password : Text

pub record Sdk (W : Type 0) : Type 0 where
  pub admin_create_user : CreateUserOption → Action W (Unit {0})
  pub new_client : BasicAuth → Action W (Unit {0})
  pub create_access_token : BasicAuth → Text → Action W Text
  pub add_collaborator_to : Text → Text → Text → Text → Action W (Unit {0})
  -- http.NewRequest for a DELETE of the URL, and its execution, which gives the status.
  pub new_request : Text → Result (Unit {0})
  pub delete_url : Text → Text → Action W ℕ
  -- the decimal digits that %d prints
  pub decimal : ℕ → Text

-- fmt.Errorf("…: %w", err)
abbrev pub annotate {ℓ} : {A : Type ℓ} {W : Type 0} → Text → Result A × W → Result A × W
annotate t (ok a, w) = (ok a, w)
annotate t (err e, w) = (err (wrap t e), w)

-- The text that %q prints, for a text with nothing to escape.
abbrev pub quoted : Text → Text
quoted s = text "\"" ++ (s ++ text "\"")

pub record Client : Type 0 where
  pub base_url : Text
  pub token : Text

module _ {W : Type 0} (sdk : Sdk W) (c : Client) where
  unfoldable pub create_user : Text → Text → Text → Action W (Unit {0})
  create_user username email password w = annotate (text "create user " ++ quoted username) (
      sdk.admin_create_user
        (record {
          username = username;
          email = email;
          password = password;
          must_change_password = false;
          send_notify = false;
        })
        w)

  -- The second call of CreateTokenWithPassword, made if the user's client could be built.
  unfoldable pub issue_token : BasicAuth → Text → Result (Unit {0}) × W → Result Text × W
  issue_token auth name (err e, w) =
      (err (wrap (text "create user client for " ++ quoted auth.username) e), w)
  issue_token auth name (ok _, w) =
      annotate (text "create token for " ++ quoted auth.username)
        (sdk.create_access_token auth name w)

  unfoldable pub create_token_with_password : Text → Text → Text → Action W Text
  unfolding issue_token
  create_token_with_password username password token_name w =
      let auth : BasicAuth = record {
        base_url = c.base_url;
        username = username;
        password = password;
      } in
      issue_token auth token_name (sdk.new_client auth w)

  unfoldable pub add_collaborator : Text → Text → Text → Text → Action W (Unit {0})
  add_collaborator owner repo collaborator permission w =
      annotate
        (text "add collaborator "
          ++ (quoted collaborator ++ (text " to " ++ (owner ++ (text "/" ++ repo)))))
        (sdk.add_collaborator_to owner repo collaborator permission w)

  -- 404 counts as gone already; any other status from 300 up is an error.
  unfoldable pub deletion_status : Text → Result ℕ × W → Result (Unit {0}) × W
  deletion_status username (err e, w) = (err (wrap (text "delete user " ++ quoted username) e), w)
  deletion_status username (ok status, w) =
      if status == 404 then (ok tt, w) else if ltb status 300 then (ok tt, w) else (
        err (
            other
              (text "delete user " ++ (quoted username ++ (text ": HTTP " ++ sdk.decimal status)))),
        w,
      )

  unfoldable pub send_delete : Text → Text → Result (Unit {0}) → W → Result (Unit {0}) × W
  unfolding deletion_status
  send_delete username url (err e) w =
      (err (wrap (text "build delete request for " ++ quoted username) e), w)
  send_delete username url (ok _) w =
      deletion_status username (sdk.delete_url url (text "token " ++ c.token) w)

  unfoldable pub delete_user : Text → Action W (Unit {0})
  unfolding send_delete
  delete_user username w =
      let url : Text =
        c.base_url ++ (text "/api/v1/admin/users/" ++ (username ++ text "?purge=true")) in
      send_delete username url (sdk.new_request url) w
