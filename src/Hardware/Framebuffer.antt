-- ===== src/Hardware/Framebuffer.antt =====
-- `framebuffer_hash_problem` and `runtime_status_problem` of m9-hardware-test.py.
pub mod Unchanged
use micro_nux.Base.{
  ℕ, not, ◌++◌, Option, none, some, List, [], ◌∷◌, Text, codes, length, text_eq, ltb, Result, ok,
  raise, ◌>>=◌, ◌>>◌, raise_if, if◌then◌else◌,
}
use micro_nux.Base.Regex.{Re, Found, find_all, is_lower_hex, literal, lit, ◌&◌}
use micro_nux.Hardware.Samples.{line_break}

abbrev pub empty_sha256 : Text
empty_sha256 = codes "e3b0c44298fc1c149afbf4c8996fb92427ae41e4649b934ca495991b7852b855"

-- What is returned, by message, and the `IndexError` of a call without phases.
pub data HashProblem : Type 0 where
  phase_count : Text → ℕ → HashProblem
  phase_empty : Text → HashProblem
  signature_changed : Text → Text → HashProblem
  index_error : HashProblem

-- The line of a phase.
abbrev hash_re : Text → Re
hash_re phase =
    Re.line_start
    & lit "MICRONUX:M9:FB-SHA256 phase="
    & literal phase
    & lit " sha256="
    & Re.group (Re.run is_lower_hex 64 (some 64))
    & line_break

-- `re.findall` of a pattern with one group.
unfoldable pub first_groups : List Found → List Text
first_groups [] = []
first_groups ((hash ∷ _, _) ∷ rest) = hash ∷ first_groups rest
first_groups (_ ∷ rest) = first_groups rest

-- `re.findall` for a phase: the hashes of its lines.
unfoldable pub phase_hashes : Text → Text → List Text
unfolding first_groups
phase_hashes output phase = first_groups (find_all (hash_re phase) output)

only_hash : Text → List Text → Result HashProblem Text
only_hash phase (hash ∷ []) = ok hash
only_hash phase hashes = raise (phase_count phase (length hashes))

-- The loop over the phases.
unfoldable pub collect_hashes : Text → List Text → Result HashProblem (List (Text × Text))
unfolding only_hash
collect_hashes output [] = ok []
collect_hashes output (phase ∷ phases) = do
  hash ← only_hash phase (phase_hashes output phase)
  raise_if (text_eq hash empty_sha256) (phase_empty phase)
  rest ← collect_hashes output phases
  ok ((phase, hash) ∷ rest)

-- The loop over `hashes[1:]`.
unfoldable pub compare_hashes : Text → Text → List (Text × Text) → Result HashProblem (Unit {0})
compare_hashes reference_phase reference [] = ok tt
compare_hashes reference_phase reference ((phase, value) ∷ rest) =
    raise_if (not (text_eq value reference)) (signature_changed reference_phase phase)
    >> compare_hashes reference_phase reference rest

unfoldable pub compare_all : List (Text × Text) → Result HashProblem (Unit {0})
compare_all [] = raise index_error
compare_all ((reference_phase, reference) ∷ rest) = compare_hashes reference_phase reference rest

-- `None` is `ok`.
unfoldable pub framebuffer_hash_problem : Text → List Text → Result HashProblem (Unit {0})
framebuffer_hash_problem output phases = do
  hashes ← collect_hashes output phases
  compare_all hashes

-- `RUNTIME_STATUS_RE`, which has no special character.
abbrev runtime_status_re : Re
runtime_status_re =
    lit
      "pattern=framebuffer boot_ready=1 native_state=RUNTIME_REVEALED brightness=63 bl_power=0 actual_brightness=63"

-- The count and the minimum of the message.
unfoldable pub runtime_status_problem : Text → ℕ → Option (ℕ × ℕ)
runtime_status_problem output minimum =
    let count = length (find_all runtime_status_re output) in
    if ltb count minimum then some (count, minimum) else none
