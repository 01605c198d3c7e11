-- ===== src/Observer/Poller.antt =====
-- internal/observer/poller.go: cron triggers become prompts for the agent's gateway.
pub mod Acknowledged
use entropy_gen.Common.{ℕ, Option, List, [], ◌∷◌, ◌++◌, if◌then◌else◌, leb}
use entropy_gen.Common.Text.{Text, text, text_eq}
use entropy_gen.Common.Fallible.{other, Result, ok, err, Action}
use entropy_gen.Common.Actions.{◌>>=◌, ◌>>◌, lift, wrapping}
use entropy_gen.Streams.{StreamMessage}

-- The stream's acknowledgement, json.Unmarshal of a cron payload into its prompt, json.Marshal of
-- a request, and the HTTP client: the request made, and the status that answers it.
pub record Poller (W : Type 0) : Type 0 where
  pub ack : Text → Text → W → W
  pub prompt_of : Option Text → Result Text
  pub encode_request : Text → Result Text
  pub new_request : Text → Text → Text → Result (Unit {0})
  pub post : Text → Text → Text → Action W ℕ
  pub decimal : ℕ → Text
  pub stream : Text
  pub openclaw_url : Text
  pub openclaw_token : Text

abbrev pub status_result : (ℕ → Text) → ℕ → Result (Unit {0})
status_result decimal status =
    if leb 400 status
    then err (other (text "openclaw returned status " ++ decimal status))
    else ok tt

module _ {W : Type 0} (p : Poller W) where
  abbrev pub completions_url : Text
  completions_url = p.openclaw_url ++ text "/v1/chat/completions"

  unfoldable pub send_to_open_claw : Text → Action W (Unit {0})
  send_to_open_claw prompt = do
    body ← wrapping (text "marshal request") (lift (p.encode_request prompt))
    wrapping (text "create request") (lift (p.new_request completions_url body p.openclaw_token))
    status ← wrapping (text "http post") (p.post completions_url body p.openclaw_token)
    lift (status_result p.decimal status)

  unfoldable pub after_sending : Text → Result (Unit {0}) × W → W
  after_sending id (ok u, w) = p.ack p.stream id w
  after_sending id (err e, w) = w

  unfoldable pub trigger : Text → Result Text → W → W
  unfolding after_sending send_to_open_claw
  trigger id (err e) w = p.ack p.stream id w
  trigger id (ok prompt) w = after_sending id (send_to_open_claw prompt w)

  -- What the loop of Run does with one message.
  unfoldable pub handle_message : StreamMessage → W → W
  unfolding trigger
  handle_message m w =
      if text_eq m.event.event_type (text "cron.trigger")
      then trigger m.id (p.prompt_of m.event.payload) w
      else p.ack p.stream m.id w

  unfoldable pub handle_all : List StreamMessage → W → W
  unfolding handle_message
  handle_all [] w = w
  handle_all (m ∷ ms) w = handle_all ms (handle_message m w)
