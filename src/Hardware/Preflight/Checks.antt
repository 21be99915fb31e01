-- ===== src/Hardware/Preflight/Checks.antt =====
-- The checks that the handlers of m9-hardware-test.py share, each with what it asks.
use micro_nux.Base.{
  ◌||◌, ℕ, List, raise_if, ◌≡◌, refl, ◌↔◌, Bool, true, false, not, ap, none, some, ◌==◌, Text, All,
  ok, raise, Option, Result, arith, raise_if-false,
}
use micro_nux.Base.Find.{Occurs, is_within-Occurs}
use micro_nux.Base.Regex.{Re, searches}
use micro_nux.Base.Strings.{is_within}
use micro_nux.Hardware.Boot.{first_missing}
use micro_nux.Hardware.Boot.Order.{first_missing-All}
use micro_nux.Hardware.Contract.{display_health_problem}
use micro_nux.Hardware.Contract.Health.{HealthyLog, display_health_problem-HealthyLog}
use micro_nux.Hardware.Framebuffer.{HashProblem, framebuffer_hash_problem, runtime_status_problem}
use micro_nux.Hardware.Framebuffer.Unchanged.{Unchanged, framebuffer_hash_problem-Unchanged}
use micro_nux.Hardware.Phases.{texts_eq}
use micro_nux.Hardware.Phases.Steps.{texts_eq-eq}
use micro_nux.Hardware.Preflight.{Stop, Detail, stop_at, stop_hashes}

pub not-false : (a : Bool) → not a ≡ false → a ≡ true
not-false true h = refl
not-false false h = cc

pub stop_at-none :
    {P : Type 0} (stage : Text) (detail : P → Detail) (o : Option P)
    → (stop_at stage detail o ≡ ok tt) ↔ (o ≡ none)
unfolding stop_at
stop_at-none stage detail none = (λ h. refl, λ h. refl)
stop_at-none stage detail (some p) = (λ h. cc, λ h. cc)

pub stop_hashes-ok :
    (stage : Text) (r : Result HashProblem (Unit {0})) → (stop_hashes stage r ≡ ok tt) ↔ (r ≡ ok tt)
unfolding stop_hashes
stop_hashes-ok stage (ok u) = (λ h. refl, λ h. refl)
stop_hashes-ok stage (raise p) = (λ h. cc, λ h. cc)

pub equals : (a b : ℕ) (e : Stop) → (raise_if (not (a == b)) e ≡ ok tt) ↔ (a ≡ b)
equals a b e =
    let (asks, passes) = raise_if-false (not (a == b)) e in
    (λ h. let same = asks h in ground (arith, same), λ h. passes (ground (arith, h)))

pub occurs :
    (marker output : Text) (e : Stop)
    → (raise_if (not (is_within marker output)) e ≡ ok tt) ↔ Occurs marker output
occurs marker output e =
    let (asks, passes) = raise_if-false (not (is_within marker output)) e in
    let (there, back) = is_within-Occurs marker output in
    (λ h. there (not-false _ (asks h)), λ h. passes (ap not (back h)))

pub no_status_problem :
    (stage output : Text)
    → (stop_at stage Detail.status_count (runtime_status_problem output 1) ≡ ok tt)
      ↔ (runtime_status_problem output 1 ≡ none)
no_status_problem stage output =
    stop_at-none stage Detail.status_count (runtime_status_problem output 1)

pub stays_healthy :
    (stage output : Text) (minimum : ℕ) (require_flip require_progress : Bool)
    → (stop_at stage Detail.health
          (display_health_problem output minimum require_flip require_progress)
        ≡ ok tt)
      ↔ HealthyLog output minimum require_flip require_progress
stays_healthy stage output minimum require_flip require_progress =
    let problem = display_health_problem output minimum require_flip require_progress in
    let (asks, passes) = stop_at-none stage Detail.health problem in
    let (log, back) =
      display_health_problem-HealthyLog output minimum require_flip require_progress in
    (λ h. log (asks h), λ h. passes (back h))

pub keeps_framebuffer :
    (stage output : Text) (phases : List Text)
    → (stop_hashes stage (framebuffer_hash_problem output phases) ≡ ok tt) ↔ Unchanged output phases
keeps_framebuffer stage output phases =
    let (asks, passes) = stop_hashes-ok stage (framebuffer_hash_problem output phases) in
    let (same, back) = framebuffer_hash_problem-Unchanged output phases in
    (λ h. same (asks h), λ h. passes (back h))

pub searched :
    (pattern : Re) (output : Text) (e : Stop)
    → (raise_if (not (searches pattern output)) e ≡ ok tt) ↔ (searches pattern output ≡ true)
searched pattern output e =
    let (asks, passes) = raise_if-false (not (searches pattern output)) e in
    (λ h. not-false _ (asks h), λ h. passes (ap not h))

pub same_texts :
    (texts expected : List Text) (e : Stop)
    → (raise_if (not (texts_eq texts expected)) e ≡ ok tt) ↔ (texts ≡ expected)
same_texts texts expected e =
    let (asks, passes) = raise_if-false (not (texts_eq texts expected)) e in
    let (equal, back) = texts_eq-eq texts expected in
    (λ h. equal (not-false _ (asks h)), λ h. passes (ap not (back h)))

pub all_there :
    (stage : Text) (markers : List Text) (output : Text)
    → (stop_at stage Detail.missing (first_missing markers output) ≡ ok tt)
      ↔ All (λ m. Occurs m output) markers
all_there stage markers output =
    let (asks, passes) = stop_at-none stage Detail.missing (first_missing markers output) in
    let (marked, back) = first_missing-All markers output in
    (λ h. marked (asks h), λ h. passes (back h))

pub holds : (b : Bool) (e : Stop) → (raise_if (not b) e ≡ ok tt) ↔ (b ≡ true)
holds b e =
    let (asks, passes) = raise_if-false (not b) e in
    (λ h. not-false b (asks h), λ h. passes (ap not h))

-- A command that succeeds with a sign in its output.
pub succeeds :
    (code : ℕ) (sign : Bool) (e : Stop)
    → (raise_if (not (code == 0) || not sign) e ≡ ok tt) ↔ ((code ≡ 0) × (sign ≡ true))
succeeds code true e =
    let (asks, passes) = raise_if-false (not (code == 0) || false) e in
    (λ h. let no = asks h in (ground (arith, no), refl), λ h. passes (ground (arith, h)))
succeeds code false e =
    let (asks, passes) = raise_if-false (not (code == 0) || true) e in
    (λ h. let no = asks h in absurd (ground (arith, no)), λ h. cc)
