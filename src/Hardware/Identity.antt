-- ===== src/Hardware/Identity.antt =====
-- `verify_runtime_identity` of m9-hardware-test.py.
pub mod Commands
pub mod Verified
use micro_nux.Base.{
  ℕ, not, Bool, true, false, ◌||◌, some, List, [], ◌∷◌, Text, codes, leb, ◌==◌, map, text_eq,
  Result, ok, raise, raise_if, ◌>>=◌, ◌>>◌,
}
use micro_nux.Base.Floats.{float_of}
use micro_nux.Base.Regex.{Re, Found, ◌&◌, digits, find_all, is_lower_hex, lit, optional}
use micro_nux.Hardware.Phases.{texts_eq}
use micro_nux.Hardware.Samples.{line_break}
use micro_nux.Hardware.Serial.{CommandResult, Outcome}
use micro_nux.Hardware.Preflight.{
  Detail, IdentityProblem, Stop, boot_id_changed, boot_id_samples_invalid, command_return_code,
  failed, identity, index_error, step, uptime_not_advancing, uptime_samples_invalid,
}
use micro_nux.Hardware.Identity.Commands.{identity_command}

-- `([ab])` behind the start of a sample's line.
abbrev sample_name : Re
sample_name =
    Re.line_start
    & lit "MICRONUX:M9.2:RUNTIME sample="
    & Re.group (Re.one (λ c. c == b'a' || c == b'b'))

abbrev hex_run : ℕ → Re
hex_run n = Re.run is_lower_hex n (some n)

abbrev pub boot_id_re : Re
boot_id_re =
    sample_name
    & lit " boot_id="
    & Re.group (
        hex_run 8
        & lit "-"
        & hex_run 4
        & lit "-"
        & hex_run 4
        & lit "-"
        & hex_run 4
        & lit "-"
        & hex_run 12)
    & line_break

-- `[0-9]+(?:\.[0-9]+)?`
abbrev pub seconds_re : Re
seconds_re = digits & optional (lit "." & digits)

abbrev pub uptime_re : Re
uptime_re = sample_name & lit " uptime=" & Re.group seconds_re & lit " " & seconds_re & line_break

-- `re.findall` of a pattern with two groups.
unfoldable pub pairs_of : List Found → List (Text × Text)
pairs_of [] = []
pairs_of ((sample ∷ value ∷ [], _) ∷ rest) = (sample, value) ∷ pairs_of rest
pairs_of (_ ∷ rest) = pairs_of rest

-- The first two values, where `values[1]` raises without them.
unfoldable pub first_two : List (Text × Text) → Result Stop (Text × Text)
first_two (a ∷ b ∷ rest) = ok (a.1, b.1)
first_two other = raise index_error

abbrev pub two_samples : List Text
two_samples = codes "a" ∷ codes "b" ∷ []

-- A returned message is given to `fail` with this stage.
abbrev pub not_identified : IdentityProblem → Stop
not_identified problem = failed (codes "runtime-identity") (identity problem)

abbrev names_of : List (Text × Text) → List Text
names_of samples = map (λ (s : Text × Text). s.0) samples

-- The checks on the two lists of samples.
unfoldable pub check_identity : List (Text × Text) → List (Text × Text) → Result Stop (Unit {0})
check_identity boots uptimes = do
  raise_if (not (texts_eq (names_of boots) two_samples)) (not_identified boot_id_samples_invalid)
  ids ← first_two boots
  raise_if (not (text_eq ids.0 ids.1)) (not_identified boot_id_changed)
  raise_if (not (texts_eq (names_of uptimes) two_samples)) (not_identified uptime_samples_invalid)
  times ← first_two uptimes
  raise_if (leb (float_of times.1) (float_of times.0)) (not_identified uptime_not_advancing)

abbrev pub boot_samples : Text → List (Text × Text)
boot_samples output = pairs_of (find_all boot_id_re output)

abbrev pub uptime_samples : Text → List (Text × Text)
uptime_samples output = pairs_of (find_all uptime_re output)

unfoldable pub judge_identity : CommandResult → Result Stop (Unit {0})
judge_identity result = do
  raise_if (not (result.return_code == 0)) (not_identified (command_return_code result.return_code))
  check_identity (boot_samples result.output) (uptime_samples result.output)

unfoldable pub verify_runtime_identity :
    (Text → Text → ℕ → Outcome CommandResult) → Result Stop (Unit {0})
verify_runtime_identity run =
    step run identity_command (codes "RUNTIME_IDENTITY") 20_000 judge_identity
