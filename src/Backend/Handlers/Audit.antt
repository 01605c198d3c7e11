-- ===== src/Backend/Handlers/Audit.antt =====
-- ListTraces of internal/backend/handler/audit.go, and the lines of its Export. ClickHouse and
-- encoding/json are parameters; a number of the query is what strconv.Atoi gives, with 0 for one
-- that is negative.
use entropy_gen.Common.{ℕ, Option, none, some, List, [], ◌∷◌, ◌++◌, ◌||◌, if◌then◌else◌, ltb}
use entropy_gen.Common.Text.{Text, text, is_empty}
use entropy_gen.Common.Dict.{Dict, lookup}
use entropy_gen.Common.Fallible.{message, Action}
use entropy_gen.ChWriter.Trace.{AuditTrace}
use entropy_gen.Backend.Handlers.{Answer, success, failure, respond}

pub record TraceFilter : Type 0 where
  pub agent_id : Text
  pub request_type : Text
  pub status : Text
  pub start_time : Text
  pub end_time : Text
  pub limit : ℕ
  pub page : ℕ

pub record TracePage : Type 0 where
  pub items : List AuditTrace
  pub total : ℕ

unfoldable pub clamp_limit : ℕ → ℕ
clamp_limit limit = if ltb 200 limit then 200 else if ltb limit 1 then 1 else limit

unfoldable pub clamp_page : ℕ → ℕ
clamp_page page = if ltb page 1 then 1 else page

abbrev pub clamped : TraceFilter → TraceFilter
clamped f = record f { limit = clamp_limit f.limit; page = clamp_page f.page }

unfoldable pub handle_list_traces :
    {W : Type 0} → (TraceFilter → Action W TracePage) → TraceFilter → W → Answer TracePage × W
unfolding clamp_limit clamp_page
handle_list_traces query f w =
    respond (success 200) (λ e. failure 500 (text "QUERY_FAILED") (message e) [])
      (query (clamped f) w)

-- json.Unmarshal into an object and into a list of objects, whose values are kept as written.
pub record Json : Type 0 where
  pub object : Text → Option (Dict Text)
  pub objects : Text → Option (List (Dict Text))

module _ (json : Json) where
  abbrev pub field_of : Option (Dict Text) → Text → Option Text
  field_of none key = none
  field_of (some fields) key = lookup key fields

  abbrev pub first_of_list : Option (List (Dict Text)) → Option (Dict Text)
  first_of_list none = none
  first_of_list (some []) = none
  first_of_list (some (c ∷ cs)) = some c

  abbrev pub choices_of : Option Text → Option (Dict Text)
  choices_of none = none
  choices_of (some t) = first_of_list (json.objects t)

  abbrev pub line_of : Option Text → Option Text → List Text
  line_of (some messages) (some response) =
      (text "{\"messages\":" ++ (messages ++ (text ",\"response\":" ++ (response ++ text "}"))))
      ∷ []
  line_of _ _ = []

  -- What Export writes for a trace: a line, or nothing where a part is missing.
  unfoldable pub export_line : AuditTrace → List Text
  unfolding lookup
  export_line t =
      if is_empty t.request_body || is_empty t.response_body
      then []
      else line_of (field_of (json.object t.request_body) (text "messages")) (
          field_of (choices_of (field_of (json.object t.response_body) (text "choices")))
            (text "message"))

  unfoldable pub export_lines : List AuditTrace → List Text
  unfolding export_line
  export_lines [] = []
  export_lines (t ∷ ts) = export_line t ++ export_lines ts
