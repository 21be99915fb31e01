-- ===== src/Hardware/Rate/Progress.antt =====
-- What `disconnect_progress_rate` (m9-hardware-test.py) asks of two phases.
use micro_nux.Base.{
  refl, ap, Bool-cases, inl, inr, ℕ, ◌-◌, ◌≤◌, ◌<◌, ◌≡◌, ◌≢◌, ◌↔◌, false, Option, none, some, List,
  [], ◌∷◌, Text, leb, ◌==◌, ◌&&◌, if◌then◌else◌, ok, raise, raise_if, raise_if-false, both, chained,
  arith,
}
use micro_nux.Base.Floats.{difference, infinity, quotient_of, rounded, whole_units}
use micro_nux.Hardware.Samples.{Sample, frames}
use micro_nux.Hardware.Rate.{
  RateProblem, check_hz, disconnect_progress_rate, is_not_positive, only_group, only_uptime,
  phase_groups, phase_uptimes, rate_of,
}

only_uptime-ok :
    (phase : Text) (uptimes : List ℕ) (t : ℕ)
    → (only_uptime phase uptimes ≡ ok t) ↔ (uptimes ≡ t ∷ [])
unfolding only_uptime
only_uptime-ok phase [] t = (λ h. cc, λ h. cc)
only_uptime-ok phase (u ∷ []) t = (λ h. cc, λ h. cc)
only_uptime-ok phase (u ∷ v ∷ more) t = (λ h. cc, λ h. cc)

only_group-ok :
    (phase : Text) (groups : List (List Sample)) (s : Sample)
    → (only_group phase groups ≡ ok s) ↔ (groups ≡ (s ∷ []) ∷ [])
unfolding only_group
only_group-ok phase [] s = (λ h. cc, λ h. cc)
only_group-ok phase ([] ∷ []) s = (λ h. cc, λ h. cc)
only_group-ok phase ((u ∷ []) ∷ []) s = (λ h. cc, λ h. cc)
only_group-ok phase ((u ∷ v ∷ more) ∷ []) s = (λ h. cc, λ h. cc)
only_group-ok phase ([] ∷ other ∷ more) s = (λ h. cc, λ h. cc)
only_group-ok phase ((u ∷ []) ∷ other ∷ more) s = (λ h. cc, λ h. cc)
only_group-ok phase ((u ∷ v ∷ rest) ∷ other ∷ more) s = (λ h. cc, λ h. cc)

-- A rate between 10 and 25 frames a second.
abbrev pub InBounds : Option ℕ → ℕ → Type 0
InBounds rate hz = (rate ≡ some hz) × (whole_units 10 ≤ hz) × (hz ≤ whole_units 25)

-- The time is later, there are more frames, and the doubles' rate lies in its bounds.
abbrev pub Advances : ℕ → ℕ → ℕ → ℕ → ℕ → Type 0
Advances start_uptime end_uptime start_frames end_frames hz =
    let gained = rounded (whole_units (end_frames - start_frames)) 1 in
    let elapsed = difference end_uptime start_uptime in
    (elapsed ≢ some 0)
    × ((start_frames < end_frames)
        × ((gained ≢ infinity) × InBounds (quotient_of gained elapsed) hz))

check_hz-InBounds :
    (start_phase end_phase : Text) (rate : Option ℕ) (hz : ℕ)
    → (check_hz start_phase end_phase rate ≡ ok hz) ↔ InBounds rate hz
unfolding check_hz
check_hz-InBounds start_phase end_phase none hz = (λ h. cc, λ h. cc)
check_hz-InBounds start_phase end_phase (some r) hz = by_bounds (whole_units 10) (whole_units 25)
  where
    by_bounds :
        (least most : ℕ)
        → ((if leb least r && leb r most
              then ok r
              else raise (RateProblem.bad_progress_hz start_phase end_phase (some r)))
            ≡ ok hz)
          ↔ ((some r ≡ some hz) × (least ≤ hz) × (hz ≤ most))
    by_bounds least most = (
      λ h. (ground (arith, h), ground (arith, h), ground (arith, h)),
      λ (e, above, below). let same : r ≡ hz = cc in ground (arith, same, above, below),
    )

later :
    (elapsed : Option ℕ) (e : RateProblem)
    → (raise_if (is_not_positive elapsed) e ≡ ok tt) ↔ (elapsed ≢ some 0)
unfolding is_not_positive
later none e = (λ h same. cc, λ h. refl)
later (some n) e =
    let (asks, passes) = raise_if-false (n == 0) e in
    (
      λ h same. let no = asks h in let zero : n ≡ 0 = cc in ground (arith, no, zero),
      λ h. passes (not_zero n h),
    )
  where
    not_zero : (m : ℕ) → some m ≢ some 0 → (m == 0) ≡ false
    not_zero m h = elim (Bool-cases (m == 0)) [
      | inr differs ↦ differs
      | inl equal ↦ let zero : m ≡ 0 = ground (arith, equal) in absurd (h (ap some zero))
    ]

more_frames : (m n : ℕ) (e : RateProblem) → (raise_if (leb n m) e ≡ ok tt) ↔ (m < n)
more_frames m n e =
    let (asks, passes) = raise_if-false (leb n m) e in
    (λ h. let no = asks h in ground (arith, no), λ h. passes (ground (arith, h)))

fits : (m n : ℕ) (e : RateProblem) → (raise_if (m == n) e ≡ ok tt) ↔ (m ≢ n)
fits m n e =
    let (asks, passes) = raise_if-false (m == n) e in
    (λ h same. let no = asks h in ground (arith, no, same), λ h. passes (ground (arith, h)))

rate_of-Advances :
    (start_phase end_phase : Text) (start_uptime end_uptime start_frames end_frames hz : ℕ)
    → (rate_of start_phase end_phase start_uptime end_uptime start_frames end_frames ≡ ok hz)
      ↔ Advances start_uptime end_uptime start_frames end_frames hz
unfolding rate_of
rate_of-Advances start_phase end_phase start_uptime end_uptime start_frames end_frames hz =
    let gained = rounded (whole_units (end_frames - start_frames)) 1 in
    let elapsed = difference end_uptime start_uptime in
    both (later elapsed _) (
      both (more_frames start_frames end_frames _) (
        both (fits gained infinity _)
          (check_hz-InBounds start_phase end_phase (quotient_of gained elapsed) hz)))

-- Each phase has one time and one sample, and from the one to the other the display advances at the rate.
abbrev pub Progresses : Text → Text → Text → Text → ℕ → Type 0
Progresses start_output start_phase end_output end_phase hz =
    (start_uptime : ℕ) × (phase_uptimes start_output start_phase ≡ start_uptime ∷ [])
    × ((end_uptime : ℕ) × (phase_uptimes end_output end_phase ≡ end_uptime ∷ [])
        × ((start : Sample) × (phase_groups start_output start_phase ≡ (start ∷ []) ∷ [])
            × ((finish : Sample) × (phase_groups end_output end_phase ≡ (finish ∷ []) ∷ [])
                × Advances start_uptime end_uptime (start.count frames) (finish.count frames) hz)))

-- `disconnect_progress_rate` returns a rate without a message exactly if the first phase has one time and one
-- sample in the first output, and the last phase in the last output; the time is later, more frames are
-- counted, their number fits a double, and the quotient of the doubles is the rate, between 10 and 25 a second.
pub disconnect_progress_rate-Progresses :
    (start_output start_phase end_output end_phase : Text) (hz : ℕ)
    → (disconnect_progress_rate start_output start_phase end_output end_phase ≡ ok hz)
      ↔ Progresses start_output start_phase end_output end_phase hz
unfolding disconnect_progress_rate
disconnect_progress_rate-Progresses start_output start_phase end_output end_phase hz =
    chained (only_uptime-ok start_phase (phase_uptimes start_output start_phase)) λ start_uptime.
      chained (only_uptime-ok end_phase (phase_uptimes end_output end_phase)) λ end_uptime.
        chained (only_group-ok start_phase (phase_groups start_output start_phase)) λ start.
          chained (only_group-ok end_phase (phase_groups end_output end_phase)) λ finish.
            rate_of-Advances start_phase end_phase start_uptime end_uptime (start.count frames)
              (finish.count frames) hz
