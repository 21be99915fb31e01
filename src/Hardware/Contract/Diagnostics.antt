-- ===== src/Hardware/Contract/Diagnostics.antt =====
-- What `diagnostics_contract_problem` demands of a sample.
use micro_nux.Base.{◌≤◌, ◌<◌, ◌≡◌, none, ◌↔◌, arith, Text, ℕ, Bool}
use micro_nux.Hardware.{max_rearm_ns}
use micro_nux.Hardware.Samples.{
  Sample, frames, error, underruns, faults, host0, host1, buffers, rearms, rearm_failures,
  flip_requests, flip_completions, generation, commit, guard_errors, arm_to_irq_over20ms, rearm_max,
  fifo_poll_zero, bridge_filler, bridge_misc, diagnostics_samples,
}
use micro_nux.Hardware.Contract.{
  diagnostics_checks, diagnostics_counters, diagnostics_contract_problem,
}
use micro_nux.Hardware.Contract.Checks.{Passes, Meets, contract_problem-Meets}
use micro_nux.Hardware.Contract.Roles.{ValidRoles, bad-ValidRoles}

-- The runtime works without an error, and each buffer has one role.
pub record IsHealthy (v : Sample) : Type 0 where
  pub no_fault : v.count faults ≡ 0
  pub no_error : v.count error ≡ 0
  pub no_host0 : v.count host0 ≡ 0
  pub no_host1 : v.count host1 ≡ 0
  pub no_underrun : v.count underruns ≡ 0
  pub no_rearm_failure : v.count rearm_failures ≡ 0
  pub no_guard_error : v.count guard_errors ≡ 0
  pub three_buffers : v.count buffers ≡ 3
  pub roles : ValidRoles v
  pub framed : 1 ≤ v.count frames
  pub generated : 1 ≤ v.count generation
  pub rearmed : 1 ≤ v.count rearms
  pub committed : 1 ≤ v.count commit
  pub never_late : v.count arm_to_irq_over20ms ≡ 0
  pub quick : v.count rearm_max < max_rearm_ns
  pub never_empty : v.count fifo_poll_zero ≡ 0
  pub filler_off : v.count bridge_filler ≡ 0
  pub bridge : v.count bridge_misc ≡ 0x3201
  pub flips_asked : v.count flip_completions ≤ v.count flip_requests

pub diagnostics-IsHealthy : (v : Sample) → Passes (diagnostics_checks v) ↔ IsHealthy v
diagnostics-IsHealthy v = (
  λ (c0, (c1, (c2, (c3, (c4, (c5, (c6, (c7, (c8, (c9, (c10, (c11, u)))))))))))). record {
    no_fault = ground arith;
    no_error = ground arith;
    no_host0 = ground arith;
    no_host1 = ground arith;
    no_underrun = ground arith;
    no_rearm_failure = ground arith;
    no_guard_error = ground arith;
    three_buffers = ground arith;
    roles = (bad-ValidRoles v).0 (c2, c3);
    framed = ground arith;
    generated = ground arith;
    rearmed = ground arith;
    committed = ground arith;
    never_late = ground arith;
    quick = ground arith;
    never_empty = ground arith;
    filler_off = ground arith;
    bridge = ground arith;
    flips_asked = ground arith;
  },
  λ s.
      let (ends, queue) = (bad-ValidRoles v).1 s.roles in
      (
        ground arith,
        (
          ground arith,
          (
            ends,
            (
              queue,
              (
                ground arith,
                (
                  ground arith,
                  (
                    ground arith,
                    (
                      ground arith,
                      (ground arith, (ground arith, (ground arith, (ground arith, tt)))),
                    ),
                  ),
                ),
              ),
            ),
          ),
        ),
      ),
)

-- A log has no diagnostics problem exactly if it has the required number of diagnostics lines, each line
-- shows a healthy runtime, no counter falls along the lines, and the required counters advance.
pub diagnostics_contract_problem-Meets :
    (output : Text) (minimum : ℕ) (require_flip require_progress : Bool)
    → (diagnostics_contract_problem output minimum require_flip require_progress ≡ none)
      ↔ Meets IsHealthy diagnostics_counters frames
          (diagnostics_samples output)
          minimum
          require_flip
          require_progress
unfolding diagnostics_contract_problem
diagnostics_contract_problem-Meets output =
    contract_problem-Meets diagnostics_checks IsHealthy diagnostics-IsHealthy diagnostics_counters
      frames (diagnostics_samples output)
