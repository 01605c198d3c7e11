-- ===== src/WsPush.antt =====
-- internal/backend/wspush/websocket_pusher.go: the hub of WebSocket clients. A client is known by a
-- number; its channel holds at most 256 messages.
pub mod Hub
use entropy_gen.Common.{
  ℕ, Bool, true, false, ◌||◌, List, [], ◌∷◌, ◌++◌, if◌then◌else◌, ltb, ◌==◌, length, drop,
}
use entropy_gen.Common.Text.{Text, text_eq, is_empty}

abbrev pub send_capacity : ℕ
send_capacity = 256

pub record Client : Type 0 where
  pub number : ℕ
  pub agent_id : Text
  pub send : List Text

-- The registered clients, and the numbers of those whose channel was closed, in that order.
pub record Pusher : Type 0 where
  pub clients : List Client
  pub closed : List ℕ

-- Register, of a connection whose client gets a number that is not in use.
unfoldable pub register : ℕ → Text → Pusher → Pusher
register n agent p = record p {
  clients = p.clients ++ (record { number = n; agent_id = agent; send = [] } ∷ []);
}

unfoldable pub is_registered : ℕ → List Client → Bool
is_registered n [] = false
is_registered n (c ∷ cs) = c.number == n || is_registered n cs

unfoldable pub without : ℕ → List Client → List Client
without n [] = []
without n (c ∷ cs) = let rest = without n cs in if c.number == n then rest else c ∷ rest

-- The channel is closed only if the client was still registered.
unfoldable pub unregister : ℕ → Pusher → Pusher
unfolding is_registered without
unregister n p =
    if is_registered n p.clients
    then record { clients = without n p.clients; closed = p.closed ++ (n ∷ []) }
    else p

-- A client with an agent gets only that agent's events; a full channel passes the message over.
unfoldable pub wants : Client → Text → Bool
wants c agent = is_empty c.agent_id || text_eq c.agent_id agent

unfoldable pub offer : Text → Text → Client → Client
unfolding wants
offer agent payload c =
    if wants c agent
    then if ltb (length c.send) send_capacity
      then record c { send = c.send ++ (payload ∷ []) }
      else c
    else c

unfoldable pub offer_all : Text → Text → List Client → List Client
unfolding offer
offer_all agent payload [] = []
offer_all agent payload (c ∷ cs) = offer agent payload c ∷ offer_all agent payload cs

unfoldable pub broadcast : Text → Text → Pusher → Pusher
unfolding offer_all
broadcast agent payload p = record p { clients = offer_all agent payload p.clients }

-- writePump takes the oldest message from a client's channel and sends it.
unfoldable pub pump_all : ℕ → List Client → List Client
pump_all n [] = []
pump_all n (c ∷ cs) =
    (if c.number == n then record c { send = drop 1 c.send } else c) ∷ pump_all n cs

unfoldable pub pump : ℕ → Pusher → Pusher
unfolding pump_all
pump n p = record p { clients = pump_all n p.clients }
