-- ===== src/Observer/Poller/Acknowledged.antt =====
-- Which messages the poller acknowledges.
use entropy_gen.Common.{◌≡◌, true, List, [], ◌∷◌, ◌++◌}
use entropy_gen.Common.Text.{Text, text, text_eq}
use entropy_gen.Common.Fallible.{Error, ok, err}
use entropy_gen.Common.Actions.{Keeps}
use entropy_gen.Streams.{StreamMessage}
use entropy_gen.Observer.Poller.{Poller, send_to_open_claw, handle_message}

-- The ids that the stream was told of: an acknowledgement adds one, and a request to the agent's
-- gateway none.
pub record AckLaws {W : Type 0} (p : Poller W) : Type 0 where
  pub acked : W → List Text
  pub ack_adds : (stream id : Text) (w : W) → acked (p.ack stream id w) ≡ acked w ++ (id ∷ [])
  pub post_keeps : (url body token : Text) → Keeps acked (p.post url body token)

module _ {W : Type 0} (p : Poller W) (laws : AckLaws p) where
  abbrev pub Acked : StreamMessage → W → Type 0
  Acked m w = laws.acked (handle_message p m w) ≡ laws.acked w ++ (m.id ∷ [])

  -- A cron trigger with a prompt that the agent's gateway did not take.
  abbrev pub Kept : StreamMessage → W → Type 0
  Kept m w =
      (prompt : Text) × (text_eq m.event.event_type (text "cron.trigger") ≡ true)
      × (p.prompt_of m.event.payload ≡ ok prompt)
      × ((e : Error) × ((send_to_open_claw p prompt w).0 ≡ err e))
      × (laws.acked (handle_message p m w) ≡ laws.acked w)
