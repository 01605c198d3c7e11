-- ===== src/GiteaClient/Issues.antt =====
-- Client.CreateIssue of internal/common/giteaclient/client.go, and resolveLabelIDs, which reads
-- all the labels of a repository page by page.
pub mod Paging
use entropy_gen.Common.{
  ℕ, zero, suc, Bool, List, [], ◌∷◌, ◌++◌, if◌then◌else◌, ltb, length, any, map,
}
use entropy_gen.Common.Text.{Text, text, text_eq}
use entropy_gen.Common.Fallible.{other, Result, ok, err, Action}
use entropy_gen.Common.Actions.{◌>>=◌, return, lift, fail, wrapping}
use entropy_gen.GiteaClient.{quoted}

pub record Label : Type 0 where
  pub id : ℕ
  pub name : Text

pub record CreateIssueOpts : Type 0 where
  pub title : Text
  pub body : Text
  pub labels : List Text
  pub assignee : Text

pub record CreateIssueOption : Type 0 where
  pub title : Text
  pub body : Text
  pub assignees : List Text
  pub labels : List ℕ

pub record IssueResult : Type 0 where
  pub number : ℕ
  pub html_url : Text

-- The calls of the Gitea SDK: ListRepoLabels for an owner, a repository, a page and its size, and
-- CreateIssue.
pub record IssueSdk (W : Type 0) : Type 0 where
  pub list_repo_labels : Text → Text → ℕ → ℕ → Action W (List Label)
  pub create_issue_in : Text → Text → CreateIssueOption → Action W IssueResult

abbrev pub page_size : ℕ
page_size = 50

unfoldable pub labels_named : List Text → List Label → List Label
labels_named names [] = []
labels_named names (l ∷ ls) =
    let rest = labels_named names ls in if any (λ n. text_eq n l.name) names then l ∷ rest else rest

-- The last loop: each name must have been found.
unfoldable pub check_found : Text → Text → List Label → List Text → Result (Unit {0})
check_found owner repo found [] = ok tt
check_found owner repo found (name ∷ names) =
    let rest = check_found owner repo found names in
    if any (λ l. text_eq l.name name) found
    then rest
    else err (
        other (
          text "label "
          ++ (quoted name ++ (text " not found in " ++ (owner ++ (text "/" ++ repo))))))

module _ {W : Type 0} (sdk : IssueSdk W) where
  -- The loop over the pages, from a page on: it ends with the first that is not full.
  unfoldable pub all_labels : ℕ → Text → Text → ℕ → Action W (List Label)
  all_labels zero owner repo page = fail (other (text "out of fuel"))
  all_labels (suc fuel) owner repo page = do
    ls ←
        wrapping (text "list labels for " ++ (owner ++ (text "/" ++ repo)))
          (sdk.list_repo_labels owner repo page page_size)
    let rest = all_labels fuel owner repo (suc page)
    if ltb (length ls) page_size then return ls else (rest >>= λ more. return (ls ++ more))

  unfoldable pub resolve_label_ids : ℕ → Text → Text → List Text → Action W (List ℕ)
  unfolding all_labels labels_named check_found
  resolve_label_ids fuel owner repo names = do
    ls ← all_labels fuel owner repo 1
    done ← lift (check_found owner repo (labels_named names ls) names)
    return (map (λ l. l.id) (labels_named names ls))

  unfoldable pub label_ids : ℕ → Text → Text → List Text → Action W (List ℕ)
  unfolding resolve_label_ids
  label_ids fuel owner repo [] = return []
  label_ids fuel owner repo (n ∷ ns) = resolve_label_ids fuel owner repo (n ∷ ns)

  unfoldable pub create_issue : ℕ → Text → Text → CreateIssueOpts → Action W IssueResult
  unfolding label_ids
  create_issue fuel owner repo opts = do
    ids ← label_ids fuel owner repo opts.labels
    wrapping (text "create issue in " ++ (owner ++ (text "/" ++ repo))) (
        sdk.create_issue_in owner repo (record {
          title = opts.title;
          body = opts.body;
          assignees = opts.assignee ∷ [];
          labels = ids;
        }))
