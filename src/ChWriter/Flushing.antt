-- ===== src/ChWriter/Flushing.antt =====
-- What becomes of a batch of messages.
use entropy_gen.Common.{
  ℕ, zero, suc, ◌<◌, ◌≡◌, refl, sym, ap, ◌∙◌, ◌⊎◌, inl, inr, true, false, List, [], ◌∷◌, arith,
}
use entropy_gen.Common.Text.{Text}
use entropy_gen.Common.Fallible.{Error, Result, ok, err, Result-cases}
use entropy_gen.ChWriter.{
  Message, Store, max_retries, present, ids_of, insert_traces, write_dlq, traces_of, attempts,
  flush, finish, append_all, encode_all, create_dlq,
}
use entropy_gen.Events.{Event}
use entropy_gen.ChWriter.Trace.{AuditTrace, event_to_trace}

module _ {W : Type 0} (store : Store W) where
  -- That many inserts failed one after the other, each followed by a longer wait.
  pub data Failed (traces : List AuditTrace) : ℕ → ℕ → W → W → Type 0 where
    no_more : {attempt : ℕ} {w : W} → Failed traces 0 attempt w w
    once_more :
        {k attempt : ℕ} {w v w' : W} {e : Error}
        → insert_traces store traces w ≡ (err e, v)
        → Failed traces k (suc attempt) (store.sleep (suc attempt) v) w'
        → Failed traces (suc k) attempt w w'

  -- One of the attempts succeeded, or all of them failed.
  Tried : ℕ → ℕ → List AuditTrace → W → Type 0
  Tried left attempt traces w =
      ((k : ℕ) × (v : W) × (w' : W) × (k < left)
        × Failed traces k attempt w v
        × (insert_traces store traces v ≡ (ok tt, w'))
        × (attempts store left attempt traces w ≡ (true, w')))
      ⊎ ((w' : W) × Failed traces left attempt w w'
          × (attempts store left attempt traces w ≡ (false, w')))

  attempts-cases :
      (left attempt : ℕ) (traces : List AuditTrace) (w : W) → Tried left attempt traces w
  unfolding attempts Tried
  attempts-cases zero attempt traces w = inr (w, no_more, refl)
  attempts-cases (suc left) attempt traces w =
      let r = insert_traces store traces w in
      elim (Result-cases r.0) [
        | inl (u, e) ↦ inl (0, w, r.1, omega arith, no_more, ap (λ x. (x, r.1)) e, rw (attempts, e))
        | inr (f, e) ↦
            elim (attempts-cases left (suc attempt) traces (store.sleep (suc attempt) r.1)) [
              | inl (k, u, w', less, failed, won, run) ↦ inl (
                suc k,
                u,
                w',
                omega arith,
                once_more (ap (λ x. (x, r.1)) e) failed,
                won,
                rw (attempts, e) run,
              )
              | inr (w', failed, run) ↦
                  inr (w', once_more (ap (λ x. (x, r.1)) e) failed, rw (attempts, e) run)
            ]
      ]

  -- The rows of some events, each with two new ids.
  pub data Traced : List Event → W → List AuditTrace → W → Type 0 where
    no_rows : {w : W} → Traced [] w [] w
    one_row :
        {e : Event} {es : List Event} {ts : List AuditTrace} {trace_id span_id : Text} {w v w' : W}
        → store.new_ids w ≡ ((trace_id, span_id), v)
        → Traced es v ts w'
        → Traced (e ∷ es) w (event_to_trace store.codec trace_id span_id e ∷ ts) w'

  traces_of-Traced :
      (es : List Event) (w : W) → Traced es w (traces_of store es w).0 (traces_of store es w).1
  unfolding traces_of
  traces_of-Traced [] w = no_rows
  traces_of-Traced (e ∷ es) w = one_row refl (traces_of-Traced es (store.new_ids w).1)

  -- Every row was appended, in order, and then the batch was sent.
  pub data Appended : List AuditTrace → W → W → Type 0 where
    sent : {w w' : W} → store.send_batch w ≡ (ok tt, w') → Appended [] w w'
    appended :
        {t : AuditTrace} {ts : List AuditTrace} {w v w' : W}
        → store.append_struct t w ≡ (ok tt, v)
        → Appended ts v w'
        → Appended (t ∷ ts) w w'

  -- There was nothing to insert, or a batch was prepared, filled and sent.
  abbrev pub Inserted : List AuditTrace → W → W → Type 0
  Inserted ts w w' =
      ((ts ≡ []) × (w' ≡ w)) ⊎ ((v : W) × (store.prepare_batch w ≡ (ok tt, v)) × Appended ts v w')

  append_all-Appended :
      (ts : List AuditTrace) (w w' : W) → append_all store ts w ≡ (ok tt, w') → Appended ts w w'
  unfolding append_all
  append_all-Appended [] w w' h = sent h
  append_all-Appended (t ∷ ts) w w' h =
      let r = store.append_struct t w in
      elim (Result-cases r.0) [
        | inl (u, e) ↦
            appended (ap (λ x. (x, r.1)) e)
              (append_all-Appended ts r.1 w' (rw (append_all, e) at h))
        | inr (f, e) ↦ let h' = ap (λ x. x.0) (rw (append_all, e) at h) in cc
      ]

  insert_traces-Inserted :
      (ts : List AuditTrace) (w w' : W) → insert_traces store ts w ≡ (ok tt, w') → Inserted ts w w'
  unfolding insert_traces
  insert_traces-Inserted [] w w' h = inl (refl, sym (ap (λ x. x.1) h))
  insert_traces-Inserted (t ∷ ts) w w' h =
      let r = store.prepare_batch w in
      elim (Result-cases r.0) [
        | inl (u, e) ↦ inr (
          r.1,
          ap (λ x. (x, r.1)) e,
          append_all-Appended (t ∷ ts) r.1 w' (rw (insert_traces, e) at h),
        )
        | inr (f, e) ↦ let h' = ap (λ x. x.0) (rw (insert_traces, e) at h) in cc
      ]

  -- The events, each given to the file's encoder in order.
  abbrev pub encoded : List Event → W → W
  encoded [] w = w
  encoded (e ∷ es) w = encoded es (store.encode_line e w)

  -- The directory or the file of the dead letters could not be made, or the events were encoded.
  abbrev pub Dumped : Text → List Event → W → W → Type 0
  Dumped stream es w w' =
      ((e : Error) × (store.make_dlq_dir w ≡ (err e, w')))
      ⊎ ((v : W) × (store.make_dlq_dir w ≡ (ok tt, v))
          × (((e : Error) × (store.create_dlq_file stream v ≡ (err e, w')))
              ⊎ ((u : W) × (store.create_dlq_file stream v ≡ (ok tt, u)) × (w' ≡ encoded es u))))

  encode_all_lem : (es : List Event) (w : W) → encode_all store es w ≡ encoded es w
  unfolding encode_all
  encode_all_lem [] w = refl
  encode_all_lem (e ∷ es) w = encode_all_lem es (store.encode_line e w)

  create_dlq-ok :
      (stream : Text) (es : List Event) (v : W)
      → let w' = create_dlq store stream es (ok tt, v) in
        ((e : Error) × (store.create_dlq_file stream v ≡ (err e, w')))
        ⊎ ((u : W) × (store.create_dlq_file stream v ≡ (ok tt, u)) × (w' ≡ encoded es u))
  unfolding create_dlq
  create_dlq-ok stream es v =
      let r = store.create_dlq_file stream v in
      elim (Result-cases r.0) [
        | inl (u, e) ↦ inr (r.1, ap (λ x. (x, r.1)) e, rw (create_dlq, e) (encode_all_lem es r.1))
        | inr (f, e) ↦ inl (f, ap (λ x. (x, r.1)) e ∙ sym (rw (create_dlq, e) refl))
      ]

  create_dlq-Dumped :
      (stream : Text) (es : List Event) (w : W) (r : Result (Unit {0}) × W)
      → store.make_dlq_dir w ≡ r
      → Dumped stream es w (create_dlq store stream es r)
  create_dlq-Dumped stream es w (ok u, v) h = inr (v, h, create_dlq-ok stream es v)
  create_dlq-Dumped stream es w (err e, v) h = inl (e, h ∙ unfold create_dlq in refl)

  write_dlq-Dumped :
      (stream : Text) (es : List Event) (w : W) → Dumped stream es w (write_dlq store stream es w)
  unfolding write_dlq
  write_dlq-Dumped stream es w = create_dlq-Dumped stream es w (store.make_dlq_dir w) refl

  -- A batch becomes one row for each of its events, with new ids. Either one of three attempts
  -- prepares a batch, appends every row in order and sends it, where the attempts before it failed,
  -- and then the messages are acknowledged; or all three failed, the events are given to the encoder
  -- of the dead-letter file in order unless its directory or the file cannot be made, and the
  -- messages are acknowledged all the same.
  pub flush_outcome :
      (stream : Text) (m : Message) (ms : List Message) (w : W)
      → (traces : List AuditTrace) × (start : W) × Traced (present (m ∷ ms)) w traces start
        × (((k : ℕ) × (v : W) × (w' : W) × (k < max_retries)
              × Failed traces k 0 start v
              × Inserted traces v w'
              × (flush store stream (m ∷ ms) w ≡ store.ack stream (ids_of (m ∷ ms)) w'))
            ⊎ ((w' : W) × (w'' : W) × Failed traces max_retries 0 start w'
                × Dumped stream (present (m ∷ ms)) w' w''
                × (flush store stream (m ∷ ms) w ≡ store.ack stream (ids_of (m ∷ ms)) w'')))
  unfolding flush Tried
  flush_outcome stream m ms w =
      let es = present (m ∷ ms) in
      let (traces, start) = traces_of store es w in
      (
        traces,
        start,
        traces_of-Traced es w,
        elim (attempts-cases max_retries 0 traces start) [
          | inl (k, v, w', less, failed, won, run) ↦ inl (
            k,
            v,
            w',
            less,
            failed,
            insert_traces-Inserted traces v w' won,
            ap (finish store stream (m ∷ ms)) run,
          )
          | inr (w', failed, run) ↦ inr (
            w',
            write_dlq store stream es w',
            failed,
            write_dlq-Dumped stream es w',
            ap (finish store stream (m ∷ ms)) run,
          )
        ],
      )
