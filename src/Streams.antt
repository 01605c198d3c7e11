-- ===== src/Streams.antt =====
-- internal/common/redisclient: consumer groups on Redis streams. The stream's commands are
-- parameters; a message carries its fields, of which the reader wants the text `data`.
use entropy_gen.Common.Text.{Text, text, text_eq}
use entropy_gen.Common.{ℕ, List, [], ◌∷◌, ◌++◌, if◌then◌else◌}
use entropy_gen.Common.Fallible.{Error, message, other, wrap, Result, ok, err, Action}
use entropy_gen.Common.Actions.{◌>>=◌, lift, wrapping}
use entropy_gen.Events.{Event}

pub record StreamMessage : Type 0 where
  pub id : Text
  pub event : Event

-- The field `data` of a message: absent, no text, or a text.
pub data Field : Type 0 where
  absent : Field
  no_text : Field
  text_field : Text → Field

pub record XMessage : Type 0 where
  pub id : Text
  pub field : Field

parse_field : (Text → Result Event) → Text → Field → Result StreamMessage
parse_field decode id absent = err (other (text "message " ++ (id ++ text " missing 'data' field")))
parse_field decode id no_text =
    err (other (text "message " ++ (id ++ text " 'data' field is not a string")))
parse_field decode id (text_field t) = elim (decode t) [
  | ok e ↦ ok (record { id = id; event = e })
  | err e ↦ err (wrap (text "unmarshal event from message " ++ id) e)
]

unfoldable pub parse_x_message : (Text → Result Event) → XMessage → Result StreamMessage
unfolding parse_field
parse_x_message decode m = parse_field decode m.id m.field

keep_parsed : Result StreamMessage → List StreamMessage → List StreamMessage
keep_parsed (ok m) ms = m ∷ ms
keep_parsed (err e) ms = ms

-- The loop of Read and of Claim: malformed messages are passed over, and their ids with them.
unfoldable pub parse_all : (Text → Result Event) → List XMessage → List StreamMessage
unfolding parse_x_message keep_parsed
parse_all decode [] = []
parse_all decode (m ∷ ms) = keep_parsed (parse_x_message decode m) (parse_all decode ms)

-- What XREADGROUP answers: no message in time, an error, or messages.
pub data ReadReply : Type 0 where
  nothing_new : ReadReply
  read_failed : Error → ReadReply
  entries : List XMessage → ReadReply

unfoldable pub read : (Text → Result Event) → Text → ReadReply → Result (List StreamMessage)
unfolding parse_all
read decode stream nothing_new = ok []
read decode stream (read_failed e) = err (wrap (text "XREADGROUP " ++ stream) e)
read decode stream (entries ms) = ok (parse_all decode ms)

-- CreateGroup: a group that is there already is no error.
unfoldable pub create_group : Result (Unit {0}) → Result (Unit {0})
create_group (ok u) = ok u
create_group (err e) =
    if text_eq (message e) (text "BUSYGROUP Consumer Group name already exists")
    then ok tt
    else err e

-- Claim: what XAUTOCLAIM hands over is parsed as what Read brings.
unfoldable pub claim :
    (Text → Result Event) → Text → Result (List XMessage) → Result (List StreamMessage)
unfolding parse_all
claim decode stream (err e) = err (wrap (text "XAUTOCLAIM " ++ stream) e)
claim decode stream (ok ms) = ok (parse_all decode ms)

-- StreamWriter.Write, given json.Marshal and XADD of a field `data` to a stream that is cut to about
-- so many entries.
unfoldable pub write_event :
    {W : Type 0}
    → (Event → Result Text)
    → (Text → ℕ → Text → Action W (Unit {0}))
    → Text
    → Event
    → ℕ
    → Action W (Unit {0})
write_event encode add stream event max_len = do
  written ← wrapping (text "marshal event") (lift (encode event))
  add stream max_len written
