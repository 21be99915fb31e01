-- ===== src/Hardware/Reconnect.antt =====
-- `recover_reconnect_prompt` of m9-hardware-test.py, over what the port does in each round before the
-- deadline.
pub mod Payloads
use micro_nux.Base.{
  ℕ, suc, ◌-◌, ◌%◌, Bool, true, false, not, ◌||◌, Option, none, some, List, [], ◌∷◌, ◌++◌, Text,
  codes, ◌==◌, length, drop, if◌then◌else◌,
}
use micro_nux.Base.Regex.{Re, ◌&◌, lit, matches, searches}
use micro_nux.Hardware.Serial.{Outcome, reconnect_prompt_complete, returned, timed_out}

-- A call on the port that raises has no value. `reopens` says whether `reopen_reconnect_serial` returns a
-- port; where it does not, its exception ends the wait.
pub record Round : Type 0 where
  pub heard : Option Text
  pub written : Option ℕ
  pub response : Option Text
  pub last_words : Option Text
  pub reopens : Bool

-- `(?:^|\r?\n)> $` on the last 2048 characters: the shell waits for the end of a quoted text.
abbrev continuation_re : Re
continuation_re = lit "> " & Re.text_end

unfoldable pub in_quotes : Text → Bool
in_quotes captured =
    let tail = drop (length captured - 2048) captured in
    matches continuation_re tail || searches (lit "\n" & continuation_re) tail

abbrev pub quote_closer : ℕ → Text
quote_closer closer_index = if closer_index % 2 == 0 then codes "\"\n" else codes "'\n"

-- What is written, with the next index of the closers.
abbrev pub payload_for : Bool → ℕ → Text × ℕ
payload_for true closer_index = (quote_closer closer_index, suc closer_index)
payload_for false closer_index = (codes "\n", closer_index)

-- `captured += ...`, where nothing is added when the call raises.
abbrev pub added : Text → Option Text → Text
added captured none = captured
added captured (some text) = captured ++ text

-- Whether the write and the reading of its response go without an exception, and what is then captured.
unfoldable pub responded : Text → Text → Option ℕ → Option Text → Option Text
responded captured payload none response = none
responded captured payload (some written) none = none
responded captured payload (some written) (some text) =
    if written == length payload then some (captured ++ text) else none

abbrev pub Ending : Type 0
Ending = List Text × Outcome Text

-- One more payload before the rest.
abbrev pub sent_first : Text → Ending → Ending
sent_first payload (sent, outcome) = (payload ∷ sent, outcome)

-- Behind the write: `again` is the loop's next rounds from a captured text.
unfoldable pub on_response : (Text → Ending) → Round → Text → Text → Option Text → Ending
on_response again round before payload (some after) =
    if reconnect_prompt_complete after (length before)
    then (payload ∷ [], returned after)
    else sent_first payload (again after)
on_response again round before payload none =
    let after = added before round.last_words in
    if reconnect_prompt_complete after (length before)
    then (payload ∷ [], returned after)
    else if round.reopens
    then sent_first payload (again after)
    else (payload ∷ [], timed_out)

-- A round's body, from what the first capture gives.
unfoldable pub on_heard : (ℕ → Text → Ending) → Round → ℕ → Text → Option Text → Ending
on_heard again round closer_index captured none =
    if round.reopens then again closer_index captured else ([], timed_out)
on_heard again round closer_index captured (some heard) =
    let before = captured ++ heard in
    let (payload, next_index) = payload_for (in_quotes before) closer_index in
    on_response (again next_index) round before payload
      (responded before payload round.written round.response)

-- The loop: what is written, in order, and how it ends.
unfoldable pub recover : List Round → ℕ → Text → Ending
recover [] closer_index captured = ([], timed_out)
recover (round ∷ rounds) closer_index captured =
    on_heard (recover rounds) round closer_index captured round.heard

-- `recover_reconnect_prompt`
unfoldable pub recover_reconnect_prompt : List Round → Ending
recover_reconnect_prompt rounds = recover rounds 0 []
