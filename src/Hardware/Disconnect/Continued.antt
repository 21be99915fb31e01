-- ===== src/Hardware/Disconnect/Continued.antt =====
-- What `run_disconnect` (m9-hardware-test.py) asks of the outputs before, at the end of and behind the
-- disconnection.
use micro_nux.Base.{
  ℕ, ◌≡◌, ◌↔◌, ◌<◌, refl, Bool, true, false, ◌&&◌, none, List, [], ◌∷◌, ◌++◌, Text, codes, ◌==◌,
  length, ok, through, arith,
}
use micro_nux.Base.Regex.{searches}
use micro_nux.Base.Strings.{join}
use micro_nux.Hardware.Contract.Health.{HealthyLog}
use micro_nux.Hardware.Framebuffer.Unchanged.{Unchanged}
use micro_nux.Hardware.Phases.Steps.{PhasesPass}
use micro_nux.Hardware.Rate.Progress.{Progresses, disconnect_progress_rate-Progresses}
use micro_nux.Hardware.Samples.{Sample, after, diagnostics_samples, scanout_samples}
use micro_nux.Hardware.Disconnect.{
  Afterwards, Evidence, after_evidence, boundary_evidence, check_after, check_boundary,
}
use micro_nux.Hardware.Disconnect.Lines.{
  all_phases, boundary_phases, scans_on, status_line_re, touch_lines,
}
use micro_nux.Hardware.Disconnect.Sound.{Sound, blamed-ok, judge_evidence-Sound, rated_lem}

-- From the one phase to the other, each with one time and one sample, the display goes on at a rate of 10 to
-- 25 frames a second.
abbrev pub Paced : Text → Text → Text → Text → Type 0
Paced start_output start_phase end_output end_phase =
    (hz : ℕ) × Progresses start_output start_phase end_output end_phase hz

-- One scanout line in each list, with more frames in the later one.
abbrev pub Continues : List Sample → List Sample → Type 0
Continues earlier later =
    (a : Sample) × (earlier ≡ a ∷ [])
    × ((b : Sample) × (later ≡ b ∷ []) × (a.count after < b.count after))

scans_on-Continues :
    (earlier later : List Sample) → (scans_on earlier later ≡ true) ↔ Continues earlier later
unfolding scans_on
scans_on-Continues [] later = (λ h. cc, λ (a, e, rest). cc)
scans_on-Continues (a ∷ c ∷ more) later = (λ h. cc, λ (x, e, rest). cc)
scans_on-Continues (a ∷ []) [] = (λ h. cc, λ (x, e, (y, f, lt)). cc)
scans_on-Continues (a ∷ []) (b ∷ d ∷ more) = (λ h. cc, λ (x, e, (y, f, lt)). cc)
scans_on-Continues (a ∷ []) (b ∷ []) = (
  λ h. (a, refl, (b, refl, ground (arith, h))),
  λ (x, e, (y, f, lt)).
      let same : a ≡ x = cc in let same' : b ≡ y = cc in rw (same, same') (ground (arith, lt)),
)

two_tests :
    {P : Type 0} (a b k l : ℕ) (test : Bool)
    → (test ≡ true) ↔ P
    → ((a == k && b == l && test) ≡ true) ↔ ((a ≡ k) × ((b ≡ l) × P))
two_tests a b k l true (p, p') =
    (λ h. (ground (arith, h), (ground (arith, h), p refl)), λ (e, (f, x)). ground (arith, e, f))
two_tests a b k l false (p, p') =
    (λ h. absurd (ground (arith, h)), λ (e, (f, x)). absurd (let no = p' x in cc))

three_tests :
    {P : Type 0} (a b c k l m : ℕ) (test : Bool)
    → (test ≡ true) ↔ P
    → ((a == k && b == l && c == m && test) ≡ true) ↔ ((a ≡ k) × ((b ≡ l) × ((c ≡ m) × P)))
three_tests a b c k l m true (p, p') = (
  λ h. (ground (arith, h), (ground (arith, h), (ground (arith, h), p refl))),
  λ (e, (f, (g, x))). ground (arith, e, f, g),
)
three_tests a b c k l m false (p, p') =
    (λ h. absurd (ground (arith, h)), λ (e, (f, (g, x))). absurd (let no = p' x in cc))

-- The evidence with what its last test says.
decoded :
    {P Q : Type 0} (e : Evidence)
    → (e.continues ≡ true) ↔ Q
    → P × Sound e ↔ (
        P
        × (PhasesPass e.output e.phases
            × (HealthyLog e.output e.minimum false true
                × (Unchanged e.hash_output e.hash_phases × ((e.status_ok ≡ true) × Q)))))
decoded e (q, q') = (
  λ (p, (a, (b, (c, (d, x))))). (p, (a, (b, (c, (d, q x))))),
  λ (p, (a, (b, (c, (d, x))))). (p, (a, (b, (c, (d, q' x))))),
)

-- From before the disconnection to its end: the rate, the four phases, a healthy display in progress, one
-- framebuffer, the status of a revealed one, two diagnostics lines on each side, one touch line, and a scanout
-- that continues.
abbrev pub Kept : Text → Text → Type 0
Kept before boundary =
    let both_outputs = before ++ (codes "\n" ++ boundary) in
    Paced before (codes "BEFORE-POSTHASH") boundary (codes "BOUNDARY-PREHASH")
    × (PhasesPass both_outputs boundary_phases
        × (HealthyLog both_outputs 2 false true
            × (Unchanged both_outputs (codes "disconnect-before" ∷ codes "disconnect-boundary" ∷ [])
                × ((searches (status_line_re (codes "MICRONUX:M9:USB-DISCONNECT:STATUS-BOUNDARY"))
                        boundary
                      ≡ true)
                    × ((length (diagnostics_samples before) ≡ 2)
                        × ((length (diagnostics_samples boundary) ≡ 2)
                            × ((touch_lines boundary ≡ 1)
                                × Continues (scanout_samples before)
                                    (scanout_samples boundary))))))))

pub check_boundary-Kept :
    (before boundary : Text) → (check_boundary before boundary ≡ ok tt) ↔ Kept before boundary
unfolding check_boundary
check_boundary-Kept before boundary =
    through
      (rated_lem _ _
        (disconnect_progress_rate-Progresses before (codes "BEFORE-POSTHASH") boundary
          (codes "BOUNDARY-PREHASH"))
        (λ problem. judge_evidence-Sound (boundary_evidence before boundary problem)))
      (decoded (boundary_evidence before boundary none) (
        three_tests (length (diagnostics_samples before)) (length (diagnostics_samples boundary))
          (touch_lines boundary) 2 2 1 _
          (scans_on-Continues (scanout_samples before) (scanout_samples boundary))))

-- From the end of the disconnection to the reconnection: the rate, the six phases, a healthy display in
-- progress, one framebuffer, the status of a revealed one, two diagnostics lines, one touch line, and a scanout
-- that continues.
abbrev pub Regained : Text → Afterwards → Type 0
Regained before a =
    let boundary = a.boundary.output in
    let state = a.after_state.output in
    let all = join (codes "\n") (before ∷ boundary ∷ state ∷ a.after_scanout.output ∷ []) in
    Paced boundary (codes "BOUNDARY-POSTHASH") state (codes "AFTER-PREHASH")
    × (PhasesPass all all_phases
        × (HealthyLog all 3 false true
            × (Unchanged (join (codes "\n") (before ∷ boundary ∷ state ∷ [])) (
                  codes "disconnect-before"
                  ∷ codes "disconnect-boundary"
                  ∷ codes "disconnect-after"
                  ∷ [])
                × ((searches (status_line_re (codes "MICRONUX:M9:USB-DISCONNECT:STATUS-AFTER"))
                        state
                      ≡ true)
                    × ((length (diagnostics_samples state) ≡ 2)
                        × ((touch_lines state ≡ 1)
                            × Continues (scanout_samples boundary)
                                (scanout_samples a.after_scanout.output)))))))

pub check_after-Regained :
    (before reconnect_log : Text) (a : Afterwards)
    → (check_after before reconnect_log a ≡ ok tt) ↔ Regained before a
unfolding check_after
check_after-Regained before reconnect_log a =
    let boundary = a.boundary.output in
    let state = a.after_state.output in
    let scanout = a.after_scanout.output in
    through
      (rated_lem _ _
        (disconnect_progress_rate-Progresses boundary (codes "BOUNDARY-POSTHASH") state
          (codes "AFTER-PREHASH"))
        λ problem.
          through (blamed-ok _ _)
            (judge_evidence-Sound (after_evidence before boundary state scanout problem)))
      (decoded (after_evidence before boundary state scanout none) (
        two_tests (length (diagnostics_samples state)) (touch_lines state) 2 1 _
          (scans_on-Continues (scanout_samples boundary) (scanout_samples scanout))))
