-- ===== src/Hardware/Serial.antt =====
-- The waits of m9-hardware-test.py on the serial port. What a port gives before the deadline is the
-- list of the chunks that `device.read` returns, an empty one for a read that timed out.
pub mod Waits
pub mod Command
pub mod Shell
pub mod Windows
use micro_nux.Base.{
  ℕ, zero, suc, ◌+◌, Bool, true, false, not, ◌&&◌, ◌||◌, Option, none, some, List, [], ◌∷◌, ◌++◌,
  Text, codes, length, ◌==◌, if◌then◌else◌, drop,
}
use micro_nux.Base.Regex.{Re, search, searches, matches, literal, lit, ◌&◌, digits}
use micro_nux.Base.Strings.{decimal, is_within}
use micro_nux.Base.Utf8.{decode}
use micro_nux.Hardware.{failure_marker}

-- `SHELL_PROMPT_RE` is `(?:^|\\r?\\n)(?:/ # |micronux# )$`; its `^` is the start of the text alone.
abbrev prompt_re : Re
prompt_re = Re.seq (Re.alt (lit "/ # ") (lit "micronux# ")) Re.text_end

unfoldable pub has_prompt : Text → Bool
has_prompt text = matches prompt_re text || searches (lit "\n" & prompt_re) text

unfoldable pub reconnect_prompt_complete : Text → ℕ → Bool
reconnect_prompt_complete output response_start = has_prompt (drop response_start output)

-- A wait ends with a value, or the deadline comes with the bytes captured so far.
pub data Waited (A : Type 0) : Type 0 where
  ended : A → Waited A
  expired : Text → Waited A

module _ {A : Type 0} (test : Text → Option A) where
  -- The loop: each chunk that is not empty is added and the decoded text is tested.
  unfoldable pub wait : Text → List Text → Waited A
  wait captured [] = expired captured
  wait captured ([] ∷ rounds) = wait captured rounds
  wait captured ((b ∷ bs) ∷ rounds) = elim (test (decode (captured ++ (b ∷ bs)))) [
    | some value ↦ ended value
    | none ↦ wait (captured ++ (b ∷ bs)) rounds
  ]

pub record CommandResult : Type 0 where
  pub output : Text
  pub return_code : ℕ

-- How a wait of the gate ends: the exceptions are values.
pub data Outcome (A : Type 0) : Type 0 where
  returned : A → Outcome A
  kernel_failure : Text → Outcome A
  short_write timed_out : Outcome A

unfoldable pub outcome_of : {A : Type 0} → Waited (Outcome A) → Outcome A
outcome_of (ended outcome) = outcome
outcome_of (expired captured) = timed_out

abbrev pub shell_ready : Text
shell_ready = codes "MICRONUX:M6:COMBINED:SHELL ready"

-- `wait_for_shell`: readiness is tested before the failure markers.
unfoldable pub shell_test : Text → Option (Outcome Text)
shell_test text =
    if is_within shell_ready text && has_prompt text
    then some (returned text)
    else elim (failure_marker text) [ some marker ↦ some (kernel_failure marker) | none ↦ none ]

unfoldable pub wait_for_shell : List Text → Outcome Text
unfolding outcome_of
wait_for_shell rounds = outcome_of (wait shell_test [] rounds)

unfoldable pub prompt_test : Text → Option (Outcome Text)
prompt_test text =
    if has_prompt text
    then some (returned text)
    else elim (failure_marker text) [ some marker ↦ some (kernel_failure marker) | none ↦ none ]

-- The outer loop of `wait_for_prompt`: the chunks of each half second, each behind a newline that is
-- sent. The result has the number of newlines.
unfoldable pub prompt_windows : Text → List (List Text) → ℕ × Outcome Text
prompt_windows captured [] = (0, timed_out)
prompt_windows captured (window ∷ windows) = elim (wait prompt_test captured window) [
  | ended outcome ↦ (1, outcome)
  | expired captured' ↦
      let (sent, outcome) = prompt_windows captured' windows in (suc sent, outcome)
]

unfoldable pub wait_for_prompt : List (List Text) → ℕ × Outcome Text
wait_for_prompt windows = prompt_windows [] windows

unfoldable pub capture_bytes : List Text → Text
capture_bytes [] = []
capture_bytes (chunk ∷ rounds) = chunk ++ capture_bytes rounds

unfoldable pub capture_passive_output : List Text → Text
capture_passive_output rounds = decode (capture_bytes rounds)

-- The token of a command: its label and the digits of `time.monotonic_ns()`.
abbrev pub token_of : Text → Text → Text
token_of label ns = codes "MICRONUX_M9_" ++ (label ++ (codes "_" ++ ns))

unfoldable pub payload_of : Text → Text → Text
payload_of token command =
    codes "echo "
    ++ (token
        ++ (codes ":BEGIN; "
            ++ (command ++ (codes "; m9_rc=$?; echo " ++ (token ++ codes ":END:$m9_rc\n")))))

-- The code that the end marker of the token shows, from the digits that are there.
unfoldable pub end_code : Text → Text → Option ℕ
end_code token text = elim (search (literal token & lit ":END:" & Re.group digits) text) [
  | some (code ∷ [], rest) ↦ some (decimal code)
  | _ ↦ none
]

unfoldable pub command_test : Text → Text → Option (Outcome CommandResult)
command_test token text = elim (failure_marker text) [
  | some marker ↦ some (kernel_failure marker)
  | none ↦ elim (end_code token text) [
    | some code ↦ some (returned (record { output = text; return_code = code }))
    | none ↦ none
  ]
]

-- `run_command` with the number of bytes that the port has taken of the payload.
unfoldable pub run_command : Text → Text → Text → ℕ → List Text → Outcome CommandResult
unfolding outcome_of
run_command command label ns written rounds =
    let token = token_of label ns in
    if not (written == length (payload_of token command))
    then short_write
    else outcome_of (wait (command_test token) [] rounds)
