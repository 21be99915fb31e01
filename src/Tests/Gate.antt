-- ===== src/Tests/Gate.antt =====
-- Runs of `verify_runtime_identity`, of the recovery of the prompt and of `main` (m9-hardware-test.py).
use micro_nux.Base.{
  ◌≡◌, ◌↔◌, refl, ℕ, ◌++◌, List, [], ◌∷◌, Text, codes, none, some, ok, raise, true, length, pos,
  text_eq,
}
use micro_nux.Base.Floats.{double_of, float_of}
use micro_nux.Base.Regex.{find_all, matches, search, searches}
use micro_nux.Base.Strings.{number, shell_quote}
use micro_nux.Hardware.Serial.{
  has_prompt, CommandResult, Outcome, returned, timed_out, reconnect_prompt_complete,
}
use micro_nux.Hardware.Preflight.{answer, identity, step, uptime_not_advancing, failed}
use micro_nux.Hardware.Preflight.Passed.{Answers}
use micro_nux.Hardware.Gate.{
  Bench, check_arguments, main, outside, exceeds, as_exit, bad_soak, usage, soak,
}
use micro_nux.Hardware.Identity.{
  check_identity, first_two, judge_identity, pairs_of, verify_runtime_identity,
}
use micro_nux.Hardware.Identity.Commands.{identity_command}
use micro_nux.Hardware.Identity.Verified.{Identified, verify_runtime_identity-Identified}
use micro_nux.Hardware.Phases.{texts_eq}
use micro_nux.Hardware.Reconnect.{
  Round, in_quotes, on_heard, on_response, recover, recover_reconnect_prompt, responded,
}
use micro_nux.Hardware.Reconnect.Payloads.{Keeps, recover_reconnect_prompt-Keeps}

abbrev answer_text : Text
answer_text =
    codes "MICRONUX:M9.2:RUNTIME sample=a boot_id=0f0f0f0f-1a1a-2b2b-3c3c-0123456789ab\r\n"
    ++ (codes "MICRONUX:M9.2:RUNTIME sample=a uptime=12.50 3.25\r\n"
        ++ (codes "MICRONUX:M9.2:RUNTIME sample=b boot_id=0f0f0f0f-1a1a-2b2b-3c3c-0123456789ab\r\n"
            ++ codes "MICRONUX:M9.2:RUNTIME sample=b uptime=13.75 3.50\r\n"))

abbrev same_boot : Text → Text → ℕ → Outcome CommandResult
same_boot command label timeout = returned (record { output = answer_text; return_code = 0 })

abbrev mute : Text → Text → ℕ → Outcome CommandResult
mute command label timeout = timed_out

identity_shown : verify_runtime_identity same_boot ≡ ok tt
unfolding verify_runtime_identity judge_identity check_identity first_two pairs_of find_all texts_eq
    text_eq float_of double_of number step answer
identity_shown = refl

-- A second time that is the first.
abbrev stuck : Text → Text → ℕ → Outcome CommandResult
stuck command label timeout = returned (record {
  output =
      codes "MICRONUX:M9.2:RUNTIME sample=a boot_id=0f0f0f0f-1a1a-2b2b-3c3c-0123456789ab\r\n"
      ++ (codes "MICRONUX:M9.2:RUNTIME sample=a uptime=12.50 3.25\r\n"
          ++ (codes
                "MICRONUX:M9.2:RUNTIME sample=b boot_id=0f0f0f0f-1a1a-2b2b-3c3c-0123456789ab\r\n"
              ++ codes "MICRONUX:M9.2:RUNTIME sample=b uptime=12.5 3.50\r\n"));
  return_code = 0;
})

time_stuck :
    verify_runtime_identity stuck
    ≡ raise (failed (codes "runtime-identity") (identity uptime_not_advancing))
unfolding verify_runtime_identity judge_identity check_identity first_two pairs_of find_all texts_eq
    text_eq float_of double_of number step answer
time_stuck = refl

-- Two continuation prompts, each answered by the other quote, and then the shell's prompt.
abbrev round_of : Text → Text → Round
round_of heard response = record {
  heard = some heard;
  written = some 2;
  response = some response;
  last_words = none;
  reopens = true;
}

abbrev in_a_quote : List Round
in_a_quote = round_of (codes "\r\n> ") (codes "\r\n> ") ∷ round_of [] (codes "\r\nmicronux# ") ∷ []

both_closers : (recover_reconnect_prompt in_a_quote).0 ≡ codes "\"\n" ∷ codes "'\n" ∷ []
unfolding recover_reconnect_prompt recover on_heard on_response responded in_quotes matches searches
    search reconnect_prompt_complete has_prompt
both_closers = refl

abbrev bench : Bench
bench = record {
  image = some (codes "image");
  dtb = some (codes "dtb");
  metadata = none;
  run = same_boot;
  shell = timed_out;
  passive = codes "quiet";
  recovery = returned (codes "/ # ");
  reconnected = timed_out;
}

short_soak :
    main bench (record {
      mode = soak;
      point_timeout_ms = pos 60_000;
      soak_seconds = pos 59;
      sample_seconds = pos 15;
      disconnect_seconds = pos 600;
      snapshot_seconds = pos 2;
      stress_cycles = pos 3;
    })
    ≡ raise (usage bad_soak)
unfolding main check_arguments outside exceeds as_exit
short_soak = refl

quoted_quote : shell_quote (codes "it's") ≡ codes "'it'\"'\"'s'"
unfolding shell_quote
quoted_quote = refl

bare_word : shell_quote (codes "/tmp/m9-boundary") ≡ codes "/tmp/m9-boundary"
unfolding shell_quote
bare_word = refl

verify_runtime_identity-Identified_example :
    (verify_runtime_identity same_boot ≡ ok tt)
    ↔ Answers same_boot identity_command (codes "RUNTIME_IDENTITY") 20_000 Identified
verify_runtime_identity-Identified_example = verify_runtime_identity-Identified same_boot

recover_reconnect_prompt-Keeps_example :
    Keeps (length in_a_quote) 0 (recover_reconnect_prompt in_a_quote)
recover_reconnect_prompt-Keeps_example = recover_reconnect_prompt-Keeps in_a_quote
