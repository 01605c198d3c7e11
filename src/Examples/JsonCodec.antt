-- ===== src/Examples/JsonCodec.antt =====
-- A codec for payloads that replaces nothing: each text behind its length, each value behind a tag.
use entropy_gen.Common.{
  ℕ, zero, suc, ◌≡◌, refl, ap, sym, ◌∙◌, true, false, Option, none, some, [], ◌∷◌, ◌++◌, length,
  take, drop,
}
use mathlib.Core.Path.{ap₂}
use entropy_gen.Common.Text.{Text}
use entropy_gen.Common.Dict.{Dict, lookup}
use entropy_gen.Events.{Value, str, num, flag, raw, Codec, RoundTrips, valid_fields}

abbrev put_text : Text → Text → Text
put_text s rest = length s ∷ (s ++ rest)

abbrev put_value : Value → Text → Text
put_value (str s) rest = 0 ∷ put_text s rest
put_value (num n) rest = 1 ∷ n ∷ rest
put_value (flag false) rest = 2 ∷ rest
put_value (flag true) rest = 3 ∷ rest
put_value (raw s) rest = 4 ∷ put_text s rest

abbrev put_fields : Dict Value → Text
put_fields [] = []
put_fields ((k, v) ∷ d) = put_text k (put_value v (put_fields d))

abbrev with_field : Text → Value → Option (Dict Value) → Option (Dict Value)
with_field k v none = none
with_field k v (some d) = some ((k, v) ∷ d)

-- The value at the head of a text, and the rest.
unfoldable pub get_value : Text → Option (Value × Text)
get_value (zero ∷ n ∷ t) = some (str (take n t), drop n t)
get_value (suc zero ∷ n ∷ t) = some (num n, t)
get_value (suc (suc zero) ∷ t) = some (flag false, t)
get_value (suc (suc (suc zero)) ∷ t) = some (flag true, t)
get_value (suc (suc (suc (suc zero))) ∷ n ∷ t) = some (raw (take n t), drop n t)
get_value _ = none

unfoldable pub get_fields : ℕ → Text → Option (Dict Value)
get_fields zero t = some []
get_fields (suc n) [] = none
get_fields (suc n) (k ∷ t) = elim (get_value (drop k t)) [
  | none ↦ none
  | some found ↦ with_field (take k t) found.0 (get_fields n found.1)
]

unfoldable pub get_all : Text → Option (Dict Value)
get_all [] = none
get_all (n ∷ t) = get_fields n t

take_name : (a b : Text) → take (length a) (a ++ b) ≡ a
take_name [] b = refl
take_name (c ∷ a) b = ap (◌∷◌ c) (take_name a b)

drop_name : (a b : Text) → drop (length a) (a ++ b) ≡ b
drop_name [] b = refl
drop_name (c ∷ a) b = drop_name a b

get_value-put_value : (v : Value) (rest : Text) → get_value (put_value v rest) ≡ some (v, rest)
unfolding get_value
get_value-put_value (str s) rest = rw (take_name s rest, drop_name s rest) refl
get_value-put_value (num n) rest = refl
get_value-put_value (flag false) rest = refl
get_value-put_value (flag true) rest = refl
get_value-put_value (raw s) rest = rw (take_name s rest, drop_name s rest) refl

get_fields_step :
    (n k : ℕ) (t rest : Text) (v : Value)
    → get_value (drop k t) ≡ some (v, rest)
    → get_fields (suc n) (k ∷ t) ≡ with_field (take k t) v (get_fields n rest)
unfolding get_fields
get_fields_step n k t rest v e = rw (get_fields, e) refl

get_fields-put_fields : (d : Dict Value) → get_fields (length d) (put_fields d) ≡ some d
unfolding get_fields
get_fields-put_fields [] = refl
get_fields-put_fields ((k, v) ∷ d) =
    let rest = put_value v (put_fields d) in
    get_fields_step (length d) (length k) (k ++ rest) (put_fields d) v
      (ap get_value (drop_name k rest) ∙ get_value-put_value v (put_fields d))
    ∙ ap₂ (λ name fields. with_field name v fields) (take_name k rest) (get_fields-put_fields d)

abbrev pub codec : Codec
codec = record { marshal = λ d. length d ∷ put_fields d; unmarshal = get_all; to_valid = λ s. s }

valid_fields_same : (d : Dict Value) → valid_fields codec d ≡ d
unfolding valid_fields
valid_fields_same [] = refl
valid_fields_same ((k, str s) ∷ d) = ap (◌∷◌ (k, str s)) (valid_fields_same d)
valid_fields_same ((k, num n) ∷ d) = ap (◌∷◌ (k, num n)) (valid_fields_same d)
valid_fields_same ((k, flag b) ∷ d) = ap (◌∷◌ (k, flag b)) (valid_fields_same d)
valid_fields_same ((k, raw s) ∷ d) = ap (◌∷◌ (k, raw s)) (valid_fields_same d)

pub read_back : (d : Dict Value) → codec.unmarshal (codec.marshal d) ≡ some d
unfolding get_all
read_back d = get_fields-put_fields d

pub codec-RoundTrips : RoundTrips codec
codec-RoundTrips d plain = (d, read_back d, λ key. ap (lookup key) (sym (valid_fields_same d)))
