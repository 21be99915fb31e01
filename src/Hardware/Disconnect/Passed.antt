-- ===== src/Hardware/Disconnect/Passed.antt =====
-- When `run_disconnect` (m9-hardware-test.py) returns 0.
use micro_nux.Base.{
  ℕ, ◌+◌, ◌++◌, ◌≡◌, ◌↔◌, refl, subst, true, none, Text, codes, Result, ok, both, chained,
  same_value,
}
use micro_nux.Base.Regex.{searches}
use micro_nux.Base.Strings.{is_within}
use micro_nux.Hardware.{failure_marker}
use micro_nux.Hardware.Serial.{CommandResult, Outcome, returned}
use micro_nux.Hardware.Preflight.{Detail, Stop}
use micro_nux.Hardware.Preflight.Checks.{stop_at-none, succeeds}
use micro_nux.Hardware.Disconnect.{
  Afterwards, afterwards, judge_armed, judge_policy, reconnect, run_disconnect,
}
use micro_nux.Hardware.Disconnect.Commands.{
  after_id_command, after_scanout_command, after_state_command, before_command, boundary_command,
  boundary_read_command, policy_command,
}
use micro_nux.Hardware.Disconnect.Lines.{armed_re}
use micro_nux.Hardware.Disconnect.Retained.{
  Retained, Steady, judge_afterwards-Retained, judge_before-Steady,
}
use micro_nux.Hardware.Disconnect.Sound.{answer-returned, awaited-returned}

-- The reset over USB is disabled.
abbrev pub Protected : CommandResult → Type 0
Protected policy = (policy.return_code ≡ 0) × (is_within (codes "disabled") policy.output ≡ true)

-- The script that looks at the display while the port is closed is started.
abbrev pub Armed : ℕ → CommandResult → Type 0
Armed boundary_delay armed =
    (armed.return_code ≡ 0) × (searches (armed_re boundary_delay) armed.output ≡ true)

module _ (run : Text → Text → ℕ → Outcome CommandResult) where
  -- The board's answers to the four commands.
  abbrev pub Answered : Afterwards → Type 0
  Answered a =
      (run boundary_read_command (codes "DISCONNECT_BOUNDARY_READ") 20_000 ≡ returned a.boundary)
      × (run after_id_command (codes "DISCONNECT_AFTER_ID") 20_000 ≡ returned a.after_id)
      × (run after_state_command (codes "DISCONNECT_AFTER_STATE") 20_000 ≡ returned a.after_state)
      × (run after_scanout_command (codes "DISCONNECT_AFTER_SCANOUT") 20_000
          ≡ returned a.after_scanout)

  abbrev four : CommandResult → CommandResult → CommandResult → CommandResult → Afterwards
  four boundary after_id after_state after_scanout = record {
    boundary = boundary;
    after_id = after_id;
    after_state = after_state;
    after_scanout = after_scanout;
  }

  same_four : (a b : Afterwards) → let r : Result Stop Afterwards = ok a in (r ≡ ok b) ↔ (a ≡ b)
  same_four a b = (λ h. same_value h, λ h. cc)

  afterwards-Answered : (a : Afterwards) → (afterwards run ≡ ok a) ↔ Answered a
  unfolding afterwards
  afterwards-Answered a =
      let (asks, passes) = chained (answer-returned _) λ x. chained (answer-returned _) λ y.
        chained (answer-returned _)
          λ z. chained (answer-returned _) λ w. same_four (four x y z w) a in
      (
        λ h. let (x, b, (y, i, (z, s, (w, o, e)))) = asks h in subst Answered e (b, i, s, o),
        λ (b, i, s, o).
            passes (a.boundary, b, (a.after_id, i, (a.after_state, s, (a.after_scanout, o, refl)))),
      )

  -- The text that is captured when the port opens again, and that of the recovery, without a failure; then
  -- the four answers.
  abbrev pub Reconnected : Outcome Text → Outcome Text → Text → Text → Type 0
  Reconnected passive recovery before boot_id =
      (passive_log : Text) × (passive ≡ returned passive_log)
      × ((prompt_log : Text) × (recovery ≡ returned prompt_log)
          × ((failure_marker (passive_log ++ prompt_log) ≡ none)
              × ((a : Afterwards) × Answered a × Retained before boot_id a)))

  reconnect-Reconnected :
      (passive recovery : Outcome Text) (before boot_id : Text)
      → (reconnect run passive recovery before boot_id ≡ ok tt)
        ↔ Reconnected passive recovery before boot_id
  unfolding reconnect
  reconnect-Reconnected passive recovery before boot_id =
      chained (awaited-returned passive) λ passive_log.
        chained (awaited-returned recovery) λ prompt_log.
          both (stop_at-none _ Detail.terminal_failure _) (
            chained afterwards-Answered
              λ a. judge_afterwards-Retained before boot_id (passive_log ++ prompt_log) a)

  abbrev pub Disconnected : Outcome Text → Outcome Text → ℕ → Type 0
  Disconnected passive recovery disconnect_seconds =
      (policy : CommandResult) × (run policy_command (codes "DISCONNECT_POLICY") 20_000
        ≡ returned policy)
      × (Protected policy
          × ((before : CommandResult) × (run before_command (codes "DISCONNECT_BEFORE") 20_000
                ≡ returned before)
              × ((boot_id : Text) × Steady before boot_id
                  × ((armed : CommandResult) × (run (boundary_command (disconnect_seconds + 1))
                          (codes "DISCONNECT_BOUNDARY_ARM") 20_000
                        ≡ returned armed)
                      × (Armed (disconnect_seconds + 1) armed
                          × Reconnected passive recovery before.output boot_id)))))

  -- `run_disconnect` returns 0 exactly if the reset over USB is disabled; the board shows a steady display
  -- and its boot identifier and starts the script for the time of the disconnection; the port gives texts
  -- without a failure when it opens again; and the four results behind it show the same boot, a display that
  -- goes on from before the disconnection to its end and to the reconnection at 10 to 25 frames a second,
  -- with passing phases, one framebuffer, the status of a revealed framebuffer and a scanout that continues.
  pub run_disconnect-Disconnected :
      (passive recovery : Outcome Text) (disconnect_seconds : ℕ)
      → (run_disconnect run passive recovery disconnect_seconds ≡ ok tt)
        ↔ Disconnected passive recovery disconnect_seconds
  unfolding run_disconnect judge_policy judge_armed
  run_disconnect-Disconnected passive recovery disconnect_seconds =
      chained (answer-returned _) λ policy. both (succeeds policy.return_code _ _) (
        chained (answer-returned _) λ before. chained (judge_before-Steady before) λ boot_id.
          chained (answer-returned _) λ armed.
            both (succeeds armed.return_code _ _)
              (reconnect-Reconnected passive recovery before.output boot_id))
