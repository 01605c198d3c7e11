-- ===== src/Observer/Watcher.antt =====
-- handleEvent of internal/observer/watcher.go: file system notifications become change events in
-- a channel of 256.
use entropy_gen.Common.{
  ℕ, Bool, ◌||◌, Option, none, some, List, [], ◌∷◌, ◌++◌, if◌then◌else◌, ltb, length, any,
}
use entropy_gen.Common.Text.{Text, text, has_prefix, split}

pub record FileChangeEvent : Type 0 where
  pub path : Text
  pub action : Text

-- The operations of a notification, as event.Has tells them.
pub record Notification : Type 0 where
  pub name : Text
  pub create : Bool
  pub write : Bool
  pub remove : Bool
  pub rename : Bool

abbrev pub events_size : ℕ
events_size = 256

abbrev pub is_hidden : Text → Bool
is_hidden path = any (λ part. has_prefix part (text ".")) (split b'/' path)

unfoldable pub action_of : Notification → Option Text
action_of e =
    if e.create
    then some (text "created")
    else if e.write
    then some (text "modified")
    else if e.remove || e.rename
    then some (text "deleted")
    else none

-- A send that does not wait: to a full channel nothing is sent.
unfoldable pub send_change : Text → Option Text → List FileChangeEvent → List FileChangeEvent
send_change path none events = events
send_change path (some action) events =
    if ltb (length events) events_size
    then events ++ (record { path = path; action = action } ∷ [])
    else events

unfoldable pub notify_change :
    Notification → Option Text → List FileChangeEvent → List FileChangeEvent
unfolding action_of send_change split has_prefix
notify_change e none events = events
notify_change e (some path) events =
    if is_hidden path then events else send_change path (action_of e) events

-- handleEvent, with filepath.Rel as a parameter.
unfoldable pub handle_event :
    (Text → Text → Option Text) → Text → Notification → List FileChangeEvent → List FileChangeEvent
unfolding notify_change
handle_event rel workspace e events =
    if has_prefix e.name workspace then notify_change e (rel workspace e.name) events else events
