-- ===== src/Base/Regex.antt =====
-- The constructs of Python's `re` that the tools use, as a backtracking matcher: greedy runs of a
-- character class, options, alternatives, groups, look-ahead, and `^` and `$` under MULTILINE, and
-- `$` without it (`text_end`).
use Prim.Native.Nat.{ℕ, zero, suc, ◌-◌}
use Prim.Native.String.{String}
use mathlib.Core.Path.{◌≡◌, refl}
use mathlib.Core.Bool.{Bool, true, false, ◌&&◌, ◌||◌}
use mathlib.Core.List.{List, [], ◌∷◌, ◌++◌}
use mathlib.Core.Option.{Option, none, some}
use micro_nux.Base.Lists.{length, take}
use micro_nux.Base.Tests.{leb, ◌==◌, if◌then◌else◌, Text, codes}

pub data Re : Type 0 where
  empty line_start line_end text_end : Re
  one : (ℕ → Bool) → Re
  -- `run class min max`; with `none` for an open end.
  run : (ℕ → Bool) → ℕ → Option ℕ → Re
  seq alt : Re → Re → Re
  group ahead : Re → Re

-- Where a match stands: the text that is left, and whether a line begins here.
pub record Cursor : Type 0 where
  pub fresh : Bool
  pub rest : Text

abbrev newline : ℕ
newline = 10

abbrev advance : ℕ → Text → Cursor
advance c cs = record { fresh = c == newline; rest = cs }

at_line_end : Text → Bool
at_line_end [] = true
at_line_end (c ∷ cs) = c == newline

-- The end of the text, or a newline that is the last character.
at_text_end : Text → Bool
at_text_end [] = true
at_text_end (c ∷ []) = c == newline
at_text_end (c ∷ d ∷ cs) = false

module _ {R : Type 0} where
  or_else : Option R → Option R → Option R
  or_else (some r) other = some r
  or_else none other = other

  -- As many characters of the class as there are, then fewer, and never less than `min`.
  greedy : (ℕ → Bool) → (Cursor → Option R) → ℕ → ℕ → Cursor → Text → Option R
  unfolding or_else
  greedy class k min zero s text = if min == 0 then k s else none
  greedy class k min (suc max) s [] = if min == 0 then k s else none
  greedy class k min (suc max) s (c ∷ cs) = elim (class c) [
    | false ↦ if min == 0 then k s else none
    | true ↦ elim (greedy class k (min - 1) max (advance c cs) cs) [
      | some r ↦ some r
      | none ↦ if min == 0 then k s else none
    ]
  ]

  step_one : (ℕ → Bool) → (Cursor → Option R) → Text → Option R
  step_one class k [] = none
  step_one class k (c ∷ cs) = if class c then k (advance c cs) else none

-- The continuation takes the groups that are closed so far and the cursor.
match : {R : Type 0} → Re → List Text → Cursor → (List Text → Cursor → Option R) → Option R
unfolding greedy step_one or_else at_line_end at_text_end
match Re.empty groups s k = k groups s
match Re.line_start groups s k = if s.fresh then k groups s else none
match Re.line_end groups s k = if at_line_end s.rest then k groups s else none
match Re.text_end groups s k = if at_text_end s.rest then k groups s else none
match (Re.one class) groups s k = step_one class (k groups) s.rest
match (Re.run class min none) groups s k = greedy class (k groups) min (length s.rest) s s.rest
match (Re.run class min (some max)) groups s k = greedy class (k groups) min max s s.rest
match (Re.seq r t) groups s k = match r groups s (λ groups' s'. match t groups' s' k)
match (Re.alt r t) groups s k =
    let other = match t groups s k in
    elim (match r groups s k) [ some found ↦ some found | none ↦ other ]
match (Re.group r) groups s k =
    match r groups s
      (λ groups' s'. k (groups' ++ (take (length s.rest - length s'.rest) s.rest ∷ [])) s')
match (Re.ahead r) groups s k = elim (match r groups s (λ groups' s'. some groups')) [
  | none ↦ none
  | some groups' ↦ k groups' s
]

-- A match: its groups, and where it ends.
abbrev pub Found : Type 0
Found = List Text × Cursor

unfoldable pub match_at : Re → Cursor → Option Found
unfolding match
match_at r s = match r [] s (λ groups s'. some (groups, s'))

-- The first position where the pattern matches.
search_from : Re → Bool → Text → Option Found
search_from r fresh [] = match_at r (record { fresh = fresh; rest = [] })
search_from r fresh (c ∷ cs) = elim (match_at r (record { fresh = fresh; rest = c ∷ cs })) [
  | some found ↦ some found
  | none ↦ search_from r (c == newline) cs
]

unfoldable pub search : Re → Text → Option Found
unfolding search_from match_at
search r text = search_from r true text

-- The groups of all matches that do not overlap, from left to right, with the text behind each.
-- A match of nothing moves on by one character.
find_loop : ℕ → Re → Cursor → List Found
unfolding search_from match_at
find_loop zero r s = []
find_loop (suc fuel) r s = elim (search_from r s.fresh s.rest) [
  | none ↦ []
  | some (groups, s') ↦ (groups, s') ∷ elim (length s'.rest == length s.rest) [
    | false ↦ find_loop fuel r s'
    | true ↦ elim (s'.rest) [ [] ↦ [] | c ∷ cs ↦ find_loop fuel r (advance c cs) ]
  ]
]

-- Each round takes a character at least.
unfoldable pub find_all : Re → Text → List Found
unfolding find_loop
find_all r text = find_loop (suc (length text)) r (record { fresh = true; rest = text })

abbrev pub is_digit : ℕ → Bool
is_digit c = leb b'0' c && leb c b'9'

abbrev pub is_lower_hex : ℕ → Bool
is_lower_hex c = is_digit c || (leb b'a' c && leb c b'f')

abbrev pub is_hex : ℕ → Bool
is_hex c = is_lower_hex c || (leb b'A' c && leb c b'F')

abbrev pub not_newline : ℕ → Bool
not_newline c = if c == newline then false else true

abbrev pub literal : Text → Re
literal [] = Re.empty
literal (c ∷ cs) = Re.seq (Re.one (λ d. d == c)) (literal cs)

abbrev pub lit : String → Re
lit s = literal (codes s)

infixr 40 ◌&◌
abbrev pub ◌&◌ : Re → Re → Re
r & t = Re.seq r t

abbrev pub digits : Re
digits = Re.run is_digit 1 none

abbrev pub optional : Re → Re
optional r = Re.alt r Re.empty

-- `\\d+` as a group behind a literal.
abbrev pub number_after : String → Re
number_after s = lit s & Re.group digits

-- `re.search` or `re.match` as a test.
unfoldable pub searches : Re → Text → Bool
unfolding search
searches r text = elim (search r text) [ none ↦ false | some found ↦ true ]

unfoldable pub matches : Re → Text → Bool
unfolding match_at
matches r text = elim (match_at r (record { fresh = true; rest = text })) [
  | none ↦ false
  | some found ↦ true
]

search_numbers :
    search (number_after "a=" & lit " b" & Re.line_end) (codes "aa=12 b")
    ≡ some (codes "12" ∷ [], record { fresh = false; rest = [] })
unfolding search
search_numbers = refl
