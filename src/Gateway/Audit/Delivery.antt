-- ===== src/Gateway/Audit/Delivery.antt =====
-- The queue between the handlers and Redis under any order of arrivals and writes.
use entropy_gen.Common.{
  ◌≡◌, true, none, some, List, [], ◌∷◌, ◌++◌, arith, ltb, length, if◌then◌else◌,
}
use mathlib.Core.List.{append_assoc, append-nil}
use entropy_gen.Events.{Event}
use entropy_gen.Gateway.Audit.{Queue, channel_size, enqueue, run_turn}

-- What the handlers and the writer's loop do to the queue, in any order.
pub data Turn : Type 0 where
  arrives : Event → Turn
  writes : Turn

-- The queue afterwards, and the events that the writer got, oldest first.
pub turns : List Turn → Queue → Queue × List Event
turns [] q = (q, [])
turns (arrives e ∷ rest) q = turns rest (enqueue e q)
turns (writes ∷ rest) q =
    let (q', out) = run_turn true q in
    let (q'', later) = turns rest q' in (q'', elim out [ none ↦ later | some e ↦ e ∷ later ])

-- The events that arrive and find room, as the queue's length at their arrival decides.
pub accepted : List Turn → Queue → List Event
accepted [] q = []
accepted (arrives e ∷ rest) q =
    let later = accepted rest (enqueue e q) in
    if ltb (length q.events) channel_size then e ∷ later else later
accepted (writes ∷ rest) q = accepted rest (run_turn true q).0

-- Events reach the writer in the order in which they were accepted: those that were queued, then
-- those accepted since, are those written and then those still queued.
pub turns-order :
    (ts : List Turn) (q : Queue)
    → q.events ++ accepted ts q ≡ (turns ts q).1 ++ (turns ts q).0.events
unfolding turns accepted enqueue run_turn
turns-order [] q = append-nil q.events
turns-order (arrives e ∷ rest) q = ground (
  arith,
  turns-order rest (enqueue e q),
  append_assoc q.events (e ∷ []) (accepted rest (enqueue e q)),
)
turns-order (writes ∷ rest) q = ground (arith, turns-order rest (run_turn true q).0)
