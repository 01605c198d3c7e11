-- ===== src/Gateway/Proxy/Capture.antt =====
-- What the recorder keeps of a response, what reaches the client, and what the audit is told.
use entropy_gen.Common.{
  ℕ, ◌+◌, ◌-◌, ◌≤◌, ◌<◌, ◌≡◌, ◌≢◌, ◌⊎◌, inl, inr, refl, ap, ◌∙◌, sym, Bool, true, false, Option,
  none, some, List, [], ◌∷◌, ◌++◌, arith, if◌then◌else◌, ltb, leb, length, take, take_all,
  take-append, length-take,
}
use native.Mathlib.Decide.{dec_le}
use mathlib.Core.Path.{ap₂}
use mathlib.Core.List.{append_assoc, append-nil}
use entropy_gen.Common.Text.{Text}
use entropy_gen.Gateway.Audit.{truncate_body}
use entropy_gen.Gateway.Proxy.{
  Act, write_header, write, Recorder, new_recorder, captured, act_on, run_acts, sent_body,
  proxy_max_body_size,
}

-- All that is written to the body.
pub written : List Act → Text
written [] = []
written (write_header code ∷ rest) = written rest
written (write b ∷ rest) = b ++ written rest

-- The status that the last header sets, or the one before.
pub last_status : ℕ → List Act → ℕ
last_status n [] = n
last_status n (write_header code ∷ rest) = last_status code rest
last_status n (write b ∷ rest) = last_status n rest

-- The recorder's buffer at any capacity.
fill_buffer :
    (m : ℕ) (xs b : Text)
    → (if ltb (length (take m xs)) m
        then if leb (length b) (m - length (take m xs))
          then take m xs ++ b
          else take m xs ++ take (m - length (take m xs)) b
        else take m xs)
      ≡ take m (xs ++ b)
fill_buffer m xs b =
    rw (take-append m xs b)
      (ground (arith, length-take m xs, take_all (m - length xs) b, append-nil (take m xs)))

captured-take :
    (xs b : Text)
    → captured true (take proxy_max_body_size xs) b ≡ take proxy_max_body_size (xs ++ b)
unfolding captured
captured-take xs b = fill_buffer proxy_max_body_size xs b

-- For the state behind some writes.
run_acts-buf :
    (rec : Recorder) (xs : Text) (acts : List Act)
    → rec.capture_body ≡ true
    → rec.buf ≡ take proxy_max_body_size xs
    → (run_acts rec acts).buf ≡ take proxy_max_body_size (xs ++ written acts)
unfolding run_acts written
run_acts-buf rec xs [] on e = e ∙ ap (take proxy_max_body_size) (sym (append-nil xs))
run_acts-buf rec xs (write_header code ∷ rest) on e =
    run_acts-buf (act_on rec (write_header code)) xs rest on e
run_acts-buf rec xs (write b ∷ rest) on e =
    run_acts-buf (act_on rec (write b)) (xs ++ b) rest on
      (ap₂ (λ c t. captured c t b) on e ∙ captured-take xs b)
    ∙ ap (take proxy_max_body_size) (append_assoc xs b (written rest))

run_acts-client :
    (rec : Recorder) (acts : List Act) → (run_acts rec acts).client ≡ rec.client ++ acts
unfolding run_acts
run_acts-client rec [] = sym (append-nil rec.client)
run_acts-client rec (write_header code ∷ rest) =
    run_acts-client (act_on rec (write_header code)) rest
    ∙ append_assoc rec.client (write_header code ∷ []) rest
run_acts-client rec (write b ∷ rest) =
    run_acts-client (act_on rec (write b)) rest ∙ append_assoc rec.client (write b ∷ []) rest

run_acts-status :
    (rec : Recorder) (acts : List Act)
    → (run_acts rec acts).status_code ≡ last_status rec.status_code acts
unfolding run_acts last_status
run_acts-status rec [] = refl
run_acts-status rec (write_header code ∷ rest) =
    run_acts-status (act_on rec (write_header code)) rest
run_acts-status rec (write b ∷ rest) = run_acts-status (act_on rec (write b)) rest

-- A recorder that does not capture keeps its buffer.
run_acts-off :
    (rec : Recorder) (acts : List Act)
    → rec.capture_body ≡ false
    → (run_acts rec acts).buf ≡ rec.buf
unfolding run_acts captured
run_acts-off rec [] off = refl
run_acts-off rec (write_header code ∷ rest) off =
    run_acts-off (act_on rec (write_header code)) rest off
run_acts-off rec (write b ∷ rest) off = run_acts-off (act_on rec (write b)) rest off ∙ rw off refl

-- What a recorder has at the end, for either setting.
pub run_acts-end :
    (capture : Bool) (acts : List Act)
    → ((run_acts (new_recorder capture) acts).client ≡ acts)
      × ((run_acts (new_recorder capture) acts).status_code ≡ last_status 200 acts)
      × ((run_acts (new_recorder capture) acts).buf
          ≡ (if capture then take proxy_max_body_size (written acts) else []))
unfolding new_recorder
run_acts-end true acts = (
  run_acts-client (new_recorder true) acts,
  run_acts-status (new_recorder true) acts,
  run_acts-buf (new_recorder true) [] acts refl refl,
)
run_acts-end false acts = (
  run_acts-client (new_recorder false) acts,
  run_acts-status (new_recorder false) acts,
  run_acts-off (new_recorder false) acts refl,
)

-- The recorder changes nothing of what the client gets, keeps the last status or else 200, and for an
-- LLM call keeps the first 65536 bytes of the whole body, however it was cut into writes.
pub recorder_faithful :
    (acts : List Act)
    → ((run_acts (new_recorder true) acts).client ≡ acts)
      × ((run_acts (new_recorder true) acts).status_code ≡ last_status 200 acts)
      × ((run_acts (new_recorder true) acts).buf ≡ take proxy_max_body_size (written acts))
unfolding new_recorder
recorder_faithful acts = run_acts-end true acts

take-short : (m : ℕ) (xs : Text) → length (take m xs) ≤ m
take-short m xs = omega (arith, length-take m xs)

not_longer : (m n : ℕ) → n ≤ m → ltb m n ≡ false
not_longer m n h = ground arith

-- The response body that the audit is given is never marked as cut, also where the recorder has
-- dropped most of it: the recorder's limit is the audit's own.
pub response_never_marked :
    (acts : List Act) → (truncate_body (run_acts (new_recorder true) acts).buf).1 ≡ false
unfolding truncate_body
response_never_marked acts =
    let e = (recorder_faithful acts).2 in
    let short = take-short proxy_max_body_size (written acts) in
    rw (e, not_longer proxy_max_body_size (length (take proxy_max_body_size (written acts))) short)

length_lem : (x y : Text) → some x ≡ some y → length x ≡ length y
length_lem x y e = ap (λ (o : Option Text). elim o [ none ↦ 0 | some t ↦ length t ]) e

-- A request body of an LLM call goes upstream whole exactly when it has at most 65537 bytes; a longer
-- one arrives cut to 65537.
pub sent_body_whole :
    (b : Text)
    → ((length b ≤ proxy_max_body_size + 1) × (sent_body true (some b) ≡ some b))
      ⊎ ((proxy_max_body_size + 1 < length b)
          × (sent_body true (some b) ≢ some b)
          × ((sent : Text)
              → sent_body true (some b) ≡ some sent
              → length sent ≡ proxy_max_body_size + 1))
unfolding sent_body
sent_body_whole b = elim (dec_le (length b) (proxy_max_body_size + 1)) [
  | yes fits ↦ inl (fits, ap some (take_all (proxy_max_body_size + 1) b fits))
  | no long ↦
      let cut : length (take (proxy_max_body_size + 1) b) ≡ proxy_max_body_size + 1 =
        omega (arith, length-take (proxy_max_body_size + 1) b) in
      inr (
        omega arith,
        λ e. long (omega (arith, length_lem (take (proxy_max_body_size + 1) b) b e, cut)),
        λ sent e. omega (arith, length_lem (take (proxy_max_body_size + 1) b) sent e, cut),
      )
]
