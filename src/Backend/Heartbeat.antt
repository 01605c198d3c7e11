-- ===== src/Backend/Heartbeat.antt =====
-- internal/backend/heartbeat/detector.go: agents without a heartbeat for 15 minutes.
use entropy_gen.Common.{ℕ, some, List, [], ◌∷◌, if◌then◌else◌, ◌&&◌, ltb, length}
use entropy_gen.Common.Text.{Text, text, after_prefix, has_prefix}
use entropy_gen.Common.Fallible.{ok, err, Action}
use entropy_gen.Common.Actions.{◌>>=◌, ◌>>◌, return, attempt}
use entropy_gen.Events.{Event, Codec, str}
use entropy_gen.Backend.Agents.{AgentClient, set_status_phase}

pub record HeartbeatTimeout : Type 0 where
  pub agent_id : Text
  pub last_heartbeat : ℕ

-- ClickHouse's GetHeartbeatTimeouts, the stream writer, uuid.New, time.Now and the time's format.
pub record Detector (W : Type 0) : Type 0 where
  pub get_heartbeat_timeouts : ℕ → Action W (List HeartbeatTimeout)
  pub agent_client : AgentClient W
  pub write : Text → Event → ℕ → Action W (Unit {0})
  pub new_id : W → Text × W
  pub now : W → ℕ × W
  pub format_time : ℕ → Text
  pub codec : Codec

-- Minutes.
abbrev pub heartbeat_timeout : ℕ
heartbeat_timeout = 15

-- The slice after a prefix that is not all of the name.
unfoldable pub agent_name_of : Text → Text
unfolding has_prefix after_prefix
agent_name_of id =
    if ltb 6 (length id) && has_prefix id (text "agent-")
    then after_prefix id (text "agent-")
    else id

module _ {W : Type 0} (d : Detector W) where
  unfoldable pub alert_event : HeartbeatTimeout → Text → ℕ → Event
  alert_event to id time = record {
    event_id = id;
    event_type = text "operator.agent_alert";
    timestamp = time;
    agent_id = to.agent_id;
    agent_role = [];
    payload = some (
        d.codec.marshal (
          (text "alert_type", str (text "agent.heartbeat_timeout"))
          ∷ (text "agent_id", str to.agent_id)
          ∷ (text "last_heartbeat", str (d.format_time to.last_heartbeat))
          ∷ (text "message", str (text "Agent heartbeat timeout: no heartbeat in 15 minutes"))
          ∷ []));
  }

  -- What the loop does for one agent: an error of either call is only logged, or ignored.
  unfoldable pub alert : HeartbeatTimeout → Action W (Unit {0})
  unfolding agent_name_of set_status_phase alert_event
  alert to = do
    marked ← attempt (set_status_phase d.agent_client (agent_name_of to.agent_id) (text "Error"))
    id ← λ w. let r = d.new_id w in (ok r.0, r.1)
    time ← λ w. let r = d.now w in (ok r.0, r.1)
    written ← attempt (d.write (text "events:k8s") (alert_event to id time) 10000)
    return tt

  unfoldable pub alert_all : List HeartbeatTimeout → Action W (Unit {0})
  unfolding alert
  alert_all [] = return tt
  alert_all (to ∷ tos) = do alert to; alert_all tos

  -- One tick of RunLoop.
  unfoldable pub detect : Action W (Unit {0})
  unfolding alert_all
  detect = do
    found ← attempt (d.get_heartbeat_timeouts heartbeat_timeout)
    elim found [ ok tos ↦ alert_all tos | err e ↦ return tt ]
