-- ===== src/Examples/HandlerRuns.antt =====
-- Runs of the observer, of the backend's login and of its clients.
use entropy_gen.Common.{
  ◌⊎◌, ℕ, suc, ◌-◌, ◌*◌, ◌≡◌, refl, ap, ◌&&◌, Bool, true, false, Option, none, some, List, [], ◌∷◌,
  ◌++◌, map, any, all, take, drop, arith,
}
use entropy_gen.Common.Text.{Text, text, text_eq, text_eq_iff, split, has_prefix}
use entropy_gen.Common.Fallible.{Error, other, Result, ok, err, Action}
use entropy_gen.Common.Actions.{◌>>=◌, return, wrapping}
use entropy_gen.Observer.GitStatus.{git_modified_files, files_of_lines, file_of_line, behind}
use entropy_gen.Observer.Tree.{
  Directory, readable, no_entry, plain, folder, FileNodes, dir_node, build_file_tree,
}
use entropy_gen.Observer.Tree.Marks.{visible_files, files_in, AreMarked, build_file_tree_lem}
use entropy_gen.Observer.DiffStat.{trim_space, drop_space, reverse_onto}
use entropy_gen.GiteaClient.Issues.{Label, IssueSdk, page_size, resolve_label_ids}
use entropy_gen.GiteaClient.Issues.Paging.{filter, resolve_label_ids_lem}
use entropy_gen.Operator.Types.{Agent}
use entropy_gen.Operator.Objects.{agent_kind}
use entropy_gen.Backend.Agents.{AgentApi, set_paused, ensure_client, required, get_agent}
use entropy_gen.Backend.Agents.Updates.{client, Changed, set_paused_stored}
use entropy_gen.Backend.Handlers.{success, with_body}
use entropy_gen.Backend.Handlers.Auth.{
  User, Credentials, Claims, Parsed, AuthHandler, login, log_in, check_user, check_password, issue,
  identify, role_or_member,
}
use entropy_gen.Backend.Handlers.Auth.Sessions.{JwtLaws, login_lem}
use entropy_gen.Streams.{StreamMessage}
use entropy_gen.Observer.Poller.{Poller}
use entropy_gen.Examples.Cluster.{server, server_laws, Store, agent, put, place, kind_dec}

abbrev workspace : Directory
workspace = readable (
    plain (text "a.go") (
      plain (text ".env") (folder (text "src") (readable (plain (text "b.go") no_entry)) no_entry)))

-- What git tells of one changed file, without the blank in front that the program trims away.
abbrev status : Result Text
status = ok (text "M  src/b.go\n")

build_file_tree_lem_example :
    (children : FileNodes) × (build_file_tree status (text "home") workspace
      ≡ dir_node (text "home") false children)
    × (files_in [] children
        ≡ map (λ p. (p, any (text_eq p) (git_modified_files status))) (visible_files [] workspace))
    × AreMarked [] children
build_file_tree_lem_example = build_file_tree_lem status (text "home") workspace

abbrev labels : List Label
labels = record { id = 4; name = text "bug" } ∷ record { id = 9; name = text "ui" } ∷ []

abbrev gitea : IssueSdk ℕ
gitea = record {
  list_repo_labels = λ o r page size w. (ok (take size (drop ((page - 1) * size) labels)), w);
  create_issue_in = λ o r i w. (ok (record { number = 1; html_url = [] }), w);
}

one_less : (k : ℕ) → suc k - 1 ≡ k
one_less k = omega arith

resolve_label_ids_lem_example :
    ((all (λ n. any (λ (l : Label). text_eq n l.name) labels) (text "ui" ∷ []) ≡ true)
      × (resolve_label_ids gitea 1 (text "o") (text "r") (text "ui" ∷ []) 5 ≡ (
        ok (
            map
              (λ (l : Label). l.id)
              (filter (λ (l : Label). any (λ n. text_eq n l.name) (text "ui" ∷ [])) labels)),
        5,
      )))
    ⊎ ((all (λ n. any (λ (l : Label). text_eq n l.name) labels) (text "ui" ∷ []) ≡ false)
        × ((e : Error) × (resolve_label_ids gitea 1 (text "o") (text "r") (text "ui" ∷ []) 5
              ≡ (err e, 5))))
resolve_label_ids_lem_example =
    resolve_label_ids_lem gitea (text "o") (text "r") labels
      (λ k w. ap (λ n. (ok (take page_size (drop (n * page_size) labels)), w)) (one_less k)) 1
      (text "ui" ∷ []) 5 (omega arith)

abbrev ann : Text
ann = text "ann"

abbrev admin_role : Text
admin_role = text "admin"

abbrev is_ann : Claims → Bool
is_ann c = text_eq c.sub ann && text_eq c.role admin_role

abbrev sign_if : Bool → Claims → Result Text
sign_if true c = ok (c.exp ∷ [])
sign_if false c = err (other (text "unknown"))

abbrev ann_parsed : Parsed
ann_parsed = record { sub = some ann; role = some admin_role }

abbrev ann_user : User
ann_user = record {
  id = 1;
  username = ann;
  password_hash = text "h";
  role = admin_role;
  created_at = 0;
  updated_at = 0;
}

abbrev find_ann : Text → Action ℕ (Option User)
find_ann name w = (ok (some ann_user), w)

-- A JWT library that signs for one user only.
abbrev users : AuthHandler ℕ
users = record {
  fallback_username = text "root";
  fallback_password_hash = [];
  secret = text "s";
  find_user = some find_ann;
  matches = λ hash password. text_eq hash password;
  sign = λ secret c. sign_if (is_ann c) c;
  parse = λ secret time token. some ann_parsed;
  now = λ w. (w, w);
}

both_hold : (a b : Bool) → a && b ≡ true → (a ≡ true) × (b ≡ true)
both_hold true b h = (refl, h)
both_hold false b h = cc

signed_ann : (b : Bool) (c : Claims) (token : Text) → sign_if b c ≡ ok token → b ≡ true
signed_ann true c token h = refl
signed_ann false c token h = cc

users_laws : JwtLaws users
users_laws = record {
  parse_signed = λ c token time signed early.
      let (same_sub, same_role) =
        both_hold (text_eq c.sub ann) (text_eq c.role admin_role)
          (signed_ann (is_ann c) c token signed) in
      rw ((text_eq_iff c.sub ann).0 same_sub, (text_eq_iff c.role admin_role).0 same_role) refl;
}

abbrev ann_credentials : Credentials
ann_credentials = record { username = ann; password = text "h" }

logged_in : (login users (ok ann_credentials) 100).0 ≡ success 200 (86500 ∷ [])
unfolding login with_body log_in check_user check_password issue text text_eq
logged_in = refl

login_lem_example :
    (text_eq (text "h") (text "h") ≡ true)
    × (identify users 200 (text "Bearer " ++ (86500 ∷ []))
        ≡ record { username = some ann; role = role_or_member (some admin_role) })
login_lem_example =
    login_lem users users_laws find_ann ann_credentials ann_user (86500 ∷ []) 200 100 refl refl
      logged_in (omega arith)

abbrev agent_api : AgentApi Store
agent_api = record { kube = server; list_in = λ n w. (ok [], w); delete_agent = λ a w. (ok tt, w) }

abbrev cluster : Store
cluster = put agent_kind agent (λ k key. none)

abbrev paused_agent : Agent
paused_agent = record agent { spec = record agent.spec { paused = true } }

paused_ok :
    (set_paused
      (client agent_api server_laws none false (text "agents"))
      (text "one")
      true
      cluster).0
    ≡ ok paused_agent
unfolding set_paused ensure_client required get_agent ◌>>=◌ return wrapping text text_eq put place
    kind_dec
paused_ok = refl

set_paused_stored_example :
    Changed agent_api server_laws none false
      (text "agents")
      (text "one")
      (λ o. record o { spec = record o.spec { paused = true } })
      cluster
      (set_paused
        (client agent_api server_laws none false (text "agents"))
        (text "one")
        true
        cluster).1
set_paused_stored_example =
    set_paused_stored agent_api server_laws none false (text "agents") (text "one") true cluster
      paused_agent paused_ok

-- A gateway that always answers with 503, and the ids acknowledged.
abbrev busy : Poller (List Text)
busy = record {
  ack = λ stream id ids. ids ++ (id ∷ []);
  prompt_of = λ payload. ok (text "work");
  encode_request = λ prompt. ok prompt;
  new_request = λ url body token. ok tt;
  post = λ url body token ids. (ok 503, ids);
  decimal = λ n. text "503";
  stream = text "events:agent-one";
  openclaw_url = text "http://localhost";
  openclaw_token = text "t";
}

abbrev tick : StreamMessage
tick = record {
  id = text "7";
  event = record {
    event_id = text "e";
    event_type = text "cron.trigger";
    timestamp = 1;
    agent_id = text "agent-one";
    agent_role = [];
    payload = none;
  };
}

-- The first of two changes that are not staged loses its first character.
first_line_cut :
    git_modified_files (ok (text " M foo.go\n M bar.go\n")) ≡ text "oo.go" ∷ text "bar.go" ∷ []
unfolding git_modified_files files_of_lines file_of_line behind trim_space drop_space reverse_onto
    text split has_prefix
first_line_cut = refl
