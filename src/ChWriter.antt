-- ===== src/ChWriter.antt =====
-- internal/backend/chwriter/clickhouse_writer.go and internal/common/chclient/insert.go: events
-- become rows of audit.traces in batches, with retries and a file for what could not be written.
pub mod Trace
pub mod Flushing
pub mod Agreement
use entropy_gen.Common.{
  ℕ, zero, suc, Bool, true, false, Option, none, some, List, [], ◌∷◌, ◌++◌, map, if◌then◌else◌, leb,
  length,
}
use entropy_gen.Common.Text.{Text, text}
use entropy_gen.Common.Fallible.{Result, ok, err, wrap, Action}
use entropy_gen.Events.{Codec, Event}
use Trace.{AuditTrace, event_to_trace}

-- A message as the reader hands it over; its event may be nil.
pub record Message : Type 0 where
  pub id : Text
  pub event : Option Event

-- The services of the writer: ClickHouse's batches, the acknowledgement of ids, whose error is
-- ignored, the dead-letter file (os.MkdirAll, os.Create and a line for each event), the waiting
-- between attempts, and uuid.New, twice.
pub record Store (W : Type 0) : Type 0 where
  pub prepare_batch : Action W (Unit {0})
  pub append_struct : AuditTrace → Action W (Unit {0})
  pub send_batch : Action W (Unit {0})
  pub ack : Text → List Text → W → W
  pub make_dlq_dir : Action W (Unit {0})
  pub create_dlq_file : Text → Action W (Unit {0})
  pub encode_line : Event → W → W
  pub sleep : ℕ → W → W
  pub new_ids : W → (Text × Text) × W
  pub codec : Codec

abbrev pub max_retries : ℕ
max_retries = 3

abbrev pub batch_size : ℕ
batch_size = 100

abbrev pub present : List Message → List Event
present [] = []
present (m ∷ ms) = elim m.event [ none ↦ present ms | some e ↦ e ∷ present ms ]

abbrev pub ids_of : List Message → List Text
ids_of = map (λ m. m.id)

module _ {W : Type 0} (store : Store W) where
  unfoldable pub append_all : List AuditTrace → Action W (Unit {0})
  append_all [] w = store.send_batch w
  append_all (t ∷ ts) w =
      let r = store.append_struct t w in
      elim r.0 [
        | ok u ↦ append_all ts r.1
        | err e ↦ (err (wrap (text "append trace " ++ t.trace_id) e), r.1)
      ]

  -- InsertTraces: nothing to do for no rows; or else a batch of all of them, sent at the end.
  unfoldable pub insert_traces : List AuditTrace → Action W (Unit {0})
  unfolding append_all
  insert_traces [] w = (ok tt, w)
  insert_traces (t ∷ ts) w =
      let r = store.prepare_batch w in
      elim r.0 [
        | ok u ↦ append_all (t ∷ ts) r.1
        | err e ↦ (err (wrap (text "prepare batch") e), r.1)
      ]

  unfoldable pub encode_all : List Event → W → W
  encode_all [] w = w
  encode_all (e ∷ es) w = encode_all es (store.encode_line e w)

  unfoldable pub create_dlq : Text → List Event → Result (Unit {0}) × W → W
  unfolding encode_all
  create_dlq stream events (err e, w) = w
  create_dlq stream events (ok _, w) =
      let r = store.create_dlq_file stream w in
      elim r.0 [ ok u ↦ encode_all events r.1 | err e ↦ r.1 ]

  -- If the directory or the file cannot be made the events are only logged as lost.
  unfoldable pub write_dlq : Text → List Event → W → W
  unfolding create_dlq
  write_dlq stream events w = create_dlq stream events (store.make_dlq_dir w)

  unfoldable pub traces_of : List Event → W → List AuditTrace × W
  traces_of [] w = ([], w)
  traces_of (e ∷ es) w =
      let (ids, w') = store.new_ids w in
      let (ts, w'') = traces_of es w' in (event_to_trace store.codec ids.0 ids.1 e ∷ ts, w'')

  -- The loop over the attempts: whether one of them inserted the rows. After a failed attempt the
  -- writer sleeps, one second longer each time.
  unfoldable pub attempts : ℕ → ℕ → List AuditTrace → W → Bool × W
  unfolding insert_traces
  attempts zero attempt traces w = (false, w)
  attempts (suc left) attempt traces w =
      let r = insert_traces traces w in
      elim r.0 [
        | ok u ↦ (true, r.1)
        | err e ↦ attempts left (suc attempt) traces (store.sleep (suc attempt) r.1)
      ]

  unfoldable pub finish : Text → List Message → Bool × W → W
  unfolding write_dlq
  finish stream msgs (true, w) = store.ack stream (ids_of msgs) w
  finish stream msgs (false, w) = store.ack stream (ids_of msgs) (write_dlq stream (present msgs) w)

  unfoldable pub flush_some : Text → List Message → W → W
  unfolding traces_of attempts finish
  flush_some stream msgs w =
      let (traces, w') = traces_of (present msgs) w in
      finish stream msgs (attempts max_retries 0 traces w')

  unfoldable pub flush : Text → List Message → W → W
  unfolding flush_some
  flush stream [] w = w
  flush stream (m ∷ ms) w = flush_some stream (m ∷ ms) w

  -- A read that brought messages: they join the buffer, which is flushed when it is full.
  unfoldable pub take_in : Text → List Message → Result (List Message) → W → List Message × W
  unfolding flush
  take_in stream buffer (err e) w = (buffer, w)
  take_in stream buffer (ok msgs) w =
      let all = buffer ++ msgs in
      if leb batch_size (length all) then ([], flush stream all w) else (all, w)

  -- The ticker: what the buffer holds is flushed.
  unfoldable pub tick : Text → List Message → W → List Message × W
  unfolding flush
  tick stream buffer w = ([], flush stream buffer w)

  -- Messages that an earlier run left pending.
  unfoldable pub reclaim : Text → Result (List Message) → W → W
  unfolding flush
  reclaim stream (err e) w = w
  reclaim stream (ok msgs) w = flush stream msgs w
