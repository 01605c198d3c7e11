-- ===== src/Events.antt =====
-- internal/common/models/event.go: the event that every component sends, and the JSON object that
-- is its payload. encoding/json is a parameter; an object is a list of fields, of which the programs
-- read texts, numbers and flags.
use entropy_gen.Common.{ℕ, ◌≡◌, Bool, true, false, ◌&&◌, Option, some, [], ◌∷◌, ltb}
use entropy_gen.Common.Text.{Text}
use entropy_gen.Common.Dict.{Dict, lookup}

pub data Value : Type 0 where
  str : Text → Value
  num : ℕ → Value
  flag : Bool → Value
  -- any other value, as it is written
  raw : Text → Value

-- json.Marshal of a map, which does not fail on such values, and json.Unmarshal into a map.
pub record Codec : Type 0 where
  pub marshal : Dict Value → Text
  pub unmarshal : Text → Option (Dict Value)
  -- what is read back of a text: its invalid UTF-8 is replaced by U+FFFD
  pub to_valid : Text → Text

abbrev pub valid_value : Codec → Value → Value
valid_value c (str s) = str (c.to_valid s)
valid_value c (num n) = num n
valid_value c (flag b) = flag b
valid_value c (raw s) = raw s

unfoldable pub valid_fields : Codec → Dict Value → Dict Value
valid_fields c [] = []
valid_fields c ((k, v) ∷ d) = (k, valid_value c v) ∷ valid_fields c d

-- The keys are ASCII, and the values are of the kinds that the programs write.
abbrev is_ascii : Text → Bool
is_ascii [] = true
is_ascii (c ∷ s) = ltb c 128 && is_ascii s

abbrev is_plain : Value → Bool
is_plain (raw s) = false
is_plain _ = true

unfoldable pub are_plain : Dict Value → Bool
are_plain [] = true
are_plain ((k, v) ∷ d) = is_ascii k && is_plain v && are_plain d

-- What was written can be read again: the same fields, maybe in another order, with valid texts.
abbrev pub RoundTrips : Codec → Type 0
RoundTrips c =
    (d : Dict Value)
    → are_plain d ≡ true
    → (d' : Dict Value) × (c.unmarshal (c.marshal d) ≡ some d')
      × ((key : Text) → lookup key d' ≡ lookup key (valid_fields c d))

-- A payload that is nil is `none`.
pub record Event : Type 0 where
  pub event_id : Text
  pub event_type : Text
  pub timestamp : ℕ
  pub agent_id : Text
  pub agent_role : Text
  pub payload : Option Text
