-- ===== src/Hardware/Disconnect/Sound.antt =====
-- What the checks of `run_disconnect` (m9-hardware-test.py) ask of the evidence.
use micro_nux.Base.{
  ℕ, ◌≡◌, ◌↔◌, refl, Bool, true, false, Option, none, List, [], ◌∷◌, Text, codes, text_eq,
  text_eq_refl, text_eq→eq, Result, ok, raise, both, ◌>>=◌, if◌then◌else◌,
}
use micro_nux.Base.Strings.{is_within}
use micro_nux.Hardware.Contract.Health.{HealthyLog}
use micro_nux.Hardware.Framebuffer.Unchanged.{Unchanged}
use micro_nux.Hardware.Phases.Steps.{PhasesPass}
use micro_nux.Hardware.Rate.{
  RateProblem, bad_progress_hz, diagnostics_count, overflow, progress_order, uptime_count,
  uptime_order,
}
use micro_nux.Hardware.Serial.{
  CommandResult, Outcome, kernel_failure, returned, short_write, timed_out,
}
use micro_nux.Hardware.Preflight.{Detail, Stop, answer}
use micro_nux.Hardware.Preflight.Checks.{holds, keeps_framebuffer, stays_healthy, stop_at-none}
use micro_nux.Hardware.Disconnect.{
  Evidence, blamed, check_boot, judge_evidence, last_id, last_text, rated,
}
use micro_nux.Hardware.Snapshot.{awaited}
use micro_nux.Hardware.Snapshot.Captured.{phases_pass}

pub answer-returned :
    (o : Outcome CommandResult) (r : CommandResult) → (answer o ≡ ok r) ↔ (o ≡ returned r)
unfolding answer
answer-returned (returned a) r = (λ h. cc, λ h. cc)
answer-returned (kernel_failure m) r = (λ h. cc, λ h. cc)
answer-returned short_write r = (λ h. cc, λ h. cc)
answer-returned timed_out r = (λ h. cc, λ h. cc)

pub awaited-returned : (o : Outcome Text) (t : Text) → (awaited o ≡ ok t) ↔ (o ≡ returned t)
unfolding awaited
awaited-returned (returned a) t = (λ h. cc, λ h. cc)
awaited-returned (kernel_failure m) t = (λ h. cc, λ h. cc)
awaited-returned short_write t = (λ h. cc, λ h. cc)
awaited-returned timed_out t = (λ h. cc, λ h. cc)

-- The last of the texts.
abbrev pub EndsWith : List Text → Text → Type 0
EndsWith [] text = ⊥
EndsWith (first ∷ rest) text = last_text first rest ≡ text

pub last_id-EndsWith :
    (none_there : Stop) (ids : List Text) (id : Text)
    → (last_id none_there ids ≡ ok id) ↔ EndsWith ids id
unfolding last_id
last_id-EndsWith none_there [] id = (λ h. cc, λ h. absurd h)
last_id-EndsWith none_there (first ∷ rest) id = (λ h. cc, λ h. cc)

pub check_boot-EndsWith :
    (none_there : Stop) (id : Text) (ids : List Text)
    → (check_boot none_there id ids ≡ ok tt) ↔ EndsWith ids id
unfolding check_boot last_id
check_boot-EndsWith none_there id [] = (λ h. cc, λ h. absurd h)
check_boot-EndsWith none_there id (first ∷ rest) =
    let (same, passes) = holds (text_eq id (last_text first rest)) _ in
    (
      λ h. let e = text_eq→eq id (last_text first rest) (same h) in cc,
      λ h. passes (rw h (text_eq_refl id)),
    )

-- The phases pass, the display is healthy, the framebuffer is the same, the status is that of a revealed
-- framebuffer and the scanout continues.
abbrev pub Sound : Evidence → Type 0
Sound e =
    PhasesPass e.output e.phases
    × (HealthyLog e.output e.minimum false true
        × (Unchanged e.hash_output e.hash_phases × ((e.status_ok ≡ true) × (e.continues ≡ true))))

pub judge_evidence-Sound :
    (e : Evidence) → (judge_evidence e ≡ ok tt) ↔ ((e.rate_problem ≡ none) × Sound e)
unfolding judge_evidence
judge_evidence-Sound e =
    let (asks, passes) = both (phases_pass e.stage e.output e.phases) (
      both (stays_healthy e.stage e.output e.minimum false true) (
        both (stop_at-none e.stage Detail.rate e.rate_problem) (
          both (keeps_framebuffer e.stage e.hash_output e.hash_phases)
            (both (holds e.status_ok _) (holds e.continues _))))) in
    (
      λ h.
          let (phases, (healthy, (in_bounds, rest))) = asks h in
          (in_bounds, (phases, (healthy, rest))),
      λ (in_bounds, (phases, (healthy, rest))). passes (phases, (healthy, (in_bounds, rest))),
    )

-- The message of the rate is none exactly if the rate is one that `P` describes.
pub rated_lem :
    {P : ℕ → Type 0} {S : Type 0} (r : Result RateProblem ℕ)
    (next : Option RateProblem → Result Stop (Unit {0}))
    → ((hz : ℕ) → (r ≡ ok hz) ↔ P hz)
    → ((problem : Option RateProblem) → (next problem ≡ ok tt) ↔ ((problem ≡ none) × S))
    → ((rated r >>= next) ≡ ok tt) ↔ (((hz : ℕ) × P hz) × S)
unfolding rated
rated_lem (ok hz) next within goes_on = (
  λ h. ((hz, (within hz).0 refl), ((goes_on none).0 h).1),
  λ (paced, s). (goes_on none).1 (refl, s),
)
rated_lem (raise overflow) next within goes_on =
    (λ h. cc, λ ((hz, p), s). let e = (within hz).1 p in cc)
rated_lem (raise (uptime_count p n)) next within goes_on =
    (λ h. let no = ((goes_on _).0 h).0 in cc, λ ((hz, w), s). let e = (within hz).1 w in cc)
rated_lem (raise (diagnostics_count p n)) next within goes_on =
    (λ h. let no = ((goes_on _).0 h).0 in cc, λ ((hz, w), s). let e = (within hz).1 w in cc)
rated_lem (raise (uptime_order p q)) next within goes_on =
    (λ h. let no = ((goes_on _).0 h).0 in cc, λ ((hz, w), s). let e = (within hz).1 w in cc)
rated_lem (raise (progress_order p q)) next within goes_on =
    (λ h. let no = ((goes_on _).0 h).0 in cc, λ ((hz, w), s). let e = (within hz).1 w in cc)
rated_lem (raise (bad_progress_hz p q n)) next within goes_on =
    (λ h. let no = ((goes_on _).0 h).0 in cc, λ ((hz, w), s). let e = (within hz).1 w in cc)

neither :
    (b : Bool) (s t : Stop)
    → let r : Result Stop (Unit {0}) = if b then raise s else raise t in r ≡ ok tt → ⊥
neither true s t h = cc
neither false s t h = cc

pub blamed-ok :
    (captured : Text) (r : Result Stop (Unit {0})) → (blamed captured r ≡ ok tt) ↔ (r ≡ ok tt)
unfolding blamed
blamed-ok captured (ok u) = (λ h. refl, λ h. refl)
blamed-ok captured (raise stop) = (
  λ h. absurd (neither (is_within (codes "MICRONUX:M9:DISPLAY-FAULT") captured) _ stop h),
  λ h. cc,
)
