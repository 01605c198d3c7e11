-- ===== src/Backend/Handlers/Assign.antt =====
-- AssignIssue of internal/backend/handler/agents.go: an issue in Gitea for an agent, and the event
-- that tells of it.
use entropy_gen.Common.{ℕ, ◌||◌, Option, none, some, [], ◌++◌, if◌then◌else◌}
use entropy_gen.Common.Text.{Text, text, is_empty, split}
use entropy_gen.Common.Fallible.{message, Result, ok, err, Action}
use entropy_gen.Events.{Event}
use entropy_gen.GiteaClient.{quoted}
use entropy_gen.GiteaClient.Issues.{IssueSdk, CreateIssueOpts, IssueResult, create_issue}
use entropy_gen.Operator.Types.{Agent}
use entropy_gen.Backend.Agents.{get_agent}
use entropy_gen.Backend.Handlers.{Answer, success, failure, with_body}
use entropy_gen.Backend.Handlers.Roles.{bad_request}
use entropy_gen.Backend.Handlers.Specs.{resolve_gitea_username}
use entropy_gen.Backend.Handlers.Agents.{AgentHandler, AssignIssueRequest, in_two}

abbrev pub issue_opts : AssignIssueRequest → Text → CreateIssueOpts
issue_opts req user = record {
  title = req.title;
  body = req.body;
  labels = req.labels;
  assignee = user;
}

-- "owner/repo" with both parts
unfoldable pub owner_and_repo : Option (Text × Text) → Option (Text × Text)
owner_and_repo none = none
owner_and_repo (some parts) = if is_empty parts.0 || is_empty parts.1 then none else some parts

module _ {W : Type 0} (h : AgentHandler W) where
  abbrev pub assigned_event :
      AssignIssueRequest → Agent → Text → Text → IssueResult → Text → ℕ → Event
  assigned_event req a name user result id time = record {
    event_id = id;
    event_type = text "issue.assigned_by_admin";
    timestamp = time;
    agent_id = name;
    agent_role = a.spec.role;
    payload = some (h.assigned_payload req result user);
  }

  -- The error of the write is only noted.
  unfoldable pub tell : Option (Text → Event → ℕ → Action W (Unit {0})) → (Text → ℕ → Event) → W → W
  tell none event w = w
  tell (some write) event w =
      let id = h.new_id w in
      let time = h.now id.1 in (write (text "events:gitea") (event id.0 time.0) 10000 time.1).1

  unfoldable pub after_issue :
      AssignIssueRequest → Agent → Text → Text → Result IssueResult × W → Answer IssueResult × W
  unfolding tell
  after_issue req a name user (err e, w) = (
    failure 502 (text "GITEA_CREATE_ISSUE_FAILED") (text "failed to create issue in gitea")
        (message e),
    w,
  )
  after_issue req a name user (ok result, w) =
      (success 200 result, tell h.write (assigned_event req a name user result) w)

  unfoldable pub assign_in :
      IssueSdk W
      → AssignIssueRequest
      → Agent
      → Text
      → Text
      → Option (Text × Text)
      → W
      → Answer IssueResult × W
  unfolding after_issue create_issue
  assign_in sdk req a name user none w =
      (failure 400 (text "INVALID_REPO") (text "repo must be in owner/repo format") [], w)
  assign_in sdk req a name user (some parts) w =
      after_issue req a name user (create_issue sdk h.fuel parts.0 parts.1 (issue_opts req user) w)

  unfoldable pub assign_to :
      IssueSdk W → AssignIssueRequest → Agent → Text → Text → W → Answer IssueResult × W
  unfolding assign_in owner_and_repo split
  assign_to sdk req a name user w =
      if is_empty user
      then (
        failure 400 (text "NO_GITEA_USER") (text "agent has no gitea user configured")
            (text "agent " ++ (quoted name ++ text " has no gitea username in spec or status")),
        w,
      )
      else assign_in sdk req a name user (owner_and_repo (in_two (text "/") (split b'/' req.repo)))
          w

  unfoldable pub assign_found :
      IssueSdk W → AssignIssueRequest → Text → Result Agent × W → Answer IssueResult × W
  unfolding assign_to resolve_gitea_username
  assign_found sdk req name (err e, w) = (
    failure 404 (text "AGENT_NOT_FOUND") (text "agent not found")
        (text "agent " ++ (quoted name ++ text " not found")),
    w,
  )
  assign_found sdk req name (ok a, w) = assign_to sdk req a name (resolve_gitea_username a) w

  unfoldable pub assign_with :
      Option (IssueSdk W) → Text → Result AssignIssueRequest → W → Answer IssueResult × W
  unfolding assign_found with_body
  assign_with none name body w =
      (failure 503 (text "GITEA_UNAVAILABLE") (text "gitea client not configured") [], w)
  assign_with (some sdk) name body w =
      with_body bad_request body (λ req v. assign_found sdk req name (get_agent h.client name v)) w

  -- AssignIssue
  unfoldable pub assign_issue : Text → Result AssignIssueRequest → W → Answer IssueResult × W
  unfolding assign_with
  assign_issue name body w = assign_with h.gitea name body w
