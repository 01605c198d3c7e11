-- ===== src/Observer/DiffStat.antt =====
-- parseDiffStat and extractNumber of internal/observer/workspace.go.
use entropy_gen.Common.{
  ℕ, ◌+◌, ◌-◌, ◌*◌, ◌^◌, Bool, ◌&&◌, ◌||◌, Option, none, some, List, [], ◌∷◌, if◌then◌else◌, ltb,
  leb, ◌==◌,
}
use entropy_gen.Common.Text.{Text, text, has_prefix, split}

-- A text back to front, put before another.
unfoldable pub reverse_onto : Text → Text → Text
reverse_onto [] acc = acc
reverse_onto (c ∷ s) acc = reverse_onto s (c ∷ acc)

-- What stands before the first occurrence of a word, back to front.
unfoldable pub before : Text → Text → Text → Option Text
unfolding has_prefix
before word [] acc = if has_prefix [] word then some acc else none
before word (c ∷ s) acc =
    let later = before word s (c ∷ acc) in if has_prefix (c ∷ s) word then some acc else later

unfoldable pub drop_blanks : Text → Text
drop_blanks [] = []
drop_blanks (c ∷ s) = let rest = drop_blanks s in if c == b' ' then rest else c ∷ s

abbrev pub is_digit : ℕ → Bool
is_digit c = leb b'0' c && leb c b'9'

unfoldable pub digits_of : Text → Text
digits_of [] = []
digits_of (c ∷ s) = let rest = digits_of s in if is_digit c then c ∷ rest else []

abbrev pub or_0 : Text → Text
or_0 [] = text "0"
or_0 (c ∷ s) = c ∷ s

unfoldable pub number_before : Option Text → Text
unfolding digits_of drop_blanks reverse_onto
number_before none = text "0"
number_before (some s) = or_0 (reverse_onto (digits_of (drop_blanks s)) [])

unfoldable pub extract_number : Text → Text → Text
unfolding before number_before
extract_number s word = number_before (before word s [])

unfoldable pub value_from : ℕ → Text → ℕ
value_from n [] = n
value_from n (c ∷ s) = value_from (n * 10 + (c - b'0')) s

-- fmt.Sscanf with %d of a text of digits into an int that is 0: what does not fit is refused.
unfoldable pub scan_int : Text → ℕ
unfolding value_from
scan_int s = if ltb (value_from 0 s) (2 ^ 63) then value_from 0 s else 0

unfoldable pub parse_summary : Text → ℕ × (ℕ × ℕ)
unfolding extract_number scan_int
parse_summary summary = (
  scan_int (extract_number summary (text "file")),
  (
    scan_int (extract_number summary (text "insertion")),
    scan_int (extract_number summary (text "deletion")),
  ),
)

-- strings.TrimSpace on ASCII
abbrev pub is_space : ℕ → Bool
is_space c = c == b' ' || (leb 9 c && leb c 13)

unfoldable pub drop_space : Text → Text
drop_space [] = []
drop_space (c ∷ s) = let rest = drop_space s in if is_space c then rest else c ∷ s

unfoldable pub trim_space : Text → Text
unfolding drop_space reverse_onto
trim_space s = reverse_onto (drop_space (reverse_onto (drop_space s) [])) []

abbrev pub last_line : List Text → Text
last_line [] = []
last_line (l ∷ []) = l
last_line (l ∷ m ∷ ls) = last_line (m ∷ ls)

unfoldable pub parse_diff_stat : Text → ℕ × (ℕ × ℕ)
unfolding trim_space split parse_summary
parse_diff_stat stat = parse_summary (last_line (split 10 (trim_space stat)))
