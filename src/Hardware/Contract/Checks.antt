-- ===== src/Hardware/Contract/Checks.antt =====
-- The loop of the contract functions (m9-hardware-test.py) against properties of all samples.
use micro_nux.Base.{
  ℕ, zero, suc, ◌≤◌, ◌<◌, ◌≡◌, refl, Bool, true, false, ◌&&◌, Option, none, some, List, [], ◌∷◌,
  length, All, ltb, leb, Bool-cases, Option-cases, inl, inr, subst, get_elem?, ◌↔◌, arith, sym,
}
use mathlib.Core.Option.{some-injective}
use micro_nux.Hardware.Samples.{Counter, Sample, flip_completions, commit}
use micro_nux.Hardware.Contract.{
  Problem, Checks, first_failing, regressions, or_then, check_rest, check_samples, ends_of,
  any_stalled, not_advanced, end_checks, contract_problem,
}

-- No test holds.
abbrev pub Passes : Checks → Type 0
Passes [] = Unit
Passes ((test, _) ∷ rest) = (test ≡ false) × Passes rest

pub first_failing-Passes : (checks : Checks) → (first_failing checks ≡ none) ↔ Passes checks
unfolding first_failing
first_failing-Passes [] = (λ h. tt, λ h. refl)
first_failing-Passes ((test, problem) ∷ rest) =
    let (forth, back) = first_failing-Passes rest in
    elim (Bool-cases test) [
      | inl fails ↦ rw fails (λ h. cc, λ h. cc)
      | inr passes ↦ rw passes (λ h. (refl, forth h), λ h. back h.1)
    ]

-- No counter of the list falls from one sample to the other.
abbrev pub NotFalling : List Counter → Sample → Sample → Type 0
NotFalling keys v w = All (λ key. v.count key ≤ w.count key) keys

regressions-NotFalling :
    (keys : List Counter) (v w : Sample) → Passes (regressions keys v w) ↔ NotFalling keys v w
regressions-NotFalling [] v w = (λ h. tt, λ h. tt)
regressions-NotFalling (key ∷ keys) v w =
    let (forth, back) = regressions-NotFalling keys v w in
    (λ (here, there). (ground arith, forth there), λ (here, there). (ground arith, back there))

or_then-none : (a b : Option Problem) → (or_then a b ≡ none) ↔ ((a ≡ none) × (b ≡ none))
or_then-none none b = (λ h. (refl, h), λ h. h.1)
or_then-none (some p) b = (λ h. cc, λ h. cc)

module _ (IsGood : Sample → Type 0) (keys : List Counter) where
  -- Each sample is good, and no counter falls from a sample to the next.
  abbrev pub SteadyFrom : Sample → List Sample → Type 0
  SteadyFrom previous [] = Unit
  SteadyFrom previous (v ∷ rest) = IsGood v × NotFalling keys previous v × SteadyFrom v rest

  abbrev pub Steady : List Sample → Type 0
  Steady [] = Unit
  Steady (v ∷ rest) = IsGood v × SteadyFrom v rest

module _ (checks : Sample → Checks) (IsGood : Sample → Type 0)
    (good : (v : Sample) → Passes (checks v) ↔ IsGood v) (keys : List Counter) where
  own_checks : (v : Sample) → (first_failing (checks v) ≡ none) ↔ IsGood v
  own_checks v =
      let passes = first_failing-Passes (checks v) in
      (λ h. (good v).0 (passes.0 h), λ h. passes.1 ((good v).1 h))

  check_rest-SteadyFrom :
      (previous : Sample) (rest : List Sample)
      → (check_rest checks keys previous rest ≡ none) ↔ SteadyFrom IsGood keys previous rest
  unfolding check_rest
  check_rest-SteadyFrom previous [] = (λ h. tt, λ h. refl)
  check_rest-SteadyFrom previous (v ∷ rest) =
      let (forth, back) = check_rest-SteadyFrom v rest in
      let own = own_checks v in
      let falls = first_failing-Passes (regressions keys previous v) in
      let ordered = regressions-NotFalling keys previous v in
      let outer = or_then-none (first_failing (checks v)) _ in
      let inner = or_then-none (first_failing (regressions keys previous v)) _ in
      (
        λ h.
            let (here, more) = outer.0 h in
            let (next, later) = inner.0 more in (own.0 here, ordered.0 (falls.0 next), forth later),
        λ (here, next, later). outer.1 (own.1 here, inner.1 (falls.1 (ordered.1 next), back later)),
      )

  pub check_samples-Steady :
      (samples : List Sample)
      → (check_samples checks keys samples ≡ none) ↔ Steady IsGood keys samples
  unfolding check_samples
  check_samples-Steady [] = (λ h. tt, λ h. refl)
  check_samples-Steady (v ∷ rest) =
      let own = own_checks v in
      let later = check_rest-SteadyFrom v rest in
      let outer = or_then-none (first_failing (checks v)) (check_rest checks keys v rest) in
      (
        λ h. (own.0 (outer.0 h).0, later.0 (outer.0 h).1),
        λ (here, there). outer.1 (own.1 here, later.1 there),
      )

-- The last sample is beyond the first in every counter of the list, and there are two at least.
abbrev pub Advanced : List Counter → List Sample → Type 0
Advanced keys samples =
    (first : Sample) × (last : Sample) × (ends_of samples ≡ some (first, last))
    × All (λ key. first.count key < last.count key) keys

any_stalled-false :
    (keys : List Counter) (first last : Sample)
    → (any_stalled keys first last ≡ false) ↔ All (λ key. first.count key < last.count key) keys
unfolding any_stalled
any_stalled-false [] first last = (λ h. tt, λ h. refl)
any_stalled-false (key ∷ keys) first last =
    let (forth, back) = any_stalled-false keys first last in
    elim (Bool-cases (leb (last.count key) (first.count key))) [
      | inl stalled ↦ rw stalled (λ h. cc, λ (here, there). absurd (ground arith))
      | inr moved ↦ rw moved (λ h. (ground arith, forth h), λ (here, there). back there)
    ]

not_advanced-Advanced :
    (keys : List Counter) (samples : List Sample)
    → (not_advanced keys samples ≡ false) ↔ Advanced keys samples
unfolding not_advanced
not_advanced-Advanced keys samples = elim (Option-cases (ends_of samples)) [
  | inl none_given ↦
      rw (none_given, not_advanced) (λ h. cc, λ (first, last, found, moved). absurd (cc))
  | inr ((first, last), found) ↦
      let (forth, back) = any_stalled-false keys first last in
      rw (found, not_advanced)
        (
          λ h. (first, last, refl, forth h),
          λ (f, l, same, moved). back (
              subst
                (λ (ends : Sample × Sample). All (λ key. ends.0.count key < ends.1.count key) keys)
                (some-injective _ _ (sym same)) moved),
        )
]

-- A requirement of the caller.
abbrev pub Required : Bool → Type 0 → Type 0
Required true P = P
Required false P = Unit

required_lem :
    (required : Bool) (keys : List Counter) (samples : List Sample)
    → ((required && not_advanced keys samples) ≡ false) ↔ Required required (Advanced keys samples)
required_lem true keys samples = not_advanced-Advanced keys samples
required_lem false keys samples = (λ h. tt, λ h. refl)

-- What a contract demands of the samples.
pub record Meets (IsGood : Sample → Type 0) (keys : List Counter) (progress : Counter)
    (samples : List Sample) (minimum : ℕ) (require_flip require_progress : Bool) : Type 0 where
  pub enough : minimum ≤ length samples
  pub steady : Steady IsGood keys samples
  pub flipped : Required require_flip (Advanced (flip_completions ∷ commit ∷ []) samples)
  pub progressed : Required require_progress (Advanced (progress ∷ []) samples)

module _ (checks : Sample → Checks) (IsGood : Sample → Type 0)
    (good : (v : Sample) → Passes (checks v) ↔ IsGood v) (keys : List Counter)
    (progress : Counter) where
  pub contract_problem-Meets :
      (samples : List Sample) (minimum : ℕ) (require_flip require_progress : Bool)
      → (contract_problem checks keys progress samples minimum require_flip require_progress ≡ none)
        ↔ Meets IsGood keys progress samples minimum require_flip require_progress
  unfolding contract_problem
  contract_problem-Meets samples minimum require_flip require_progress =
      let steady = check_samples-Steady checks IsGood good keys samples in
      let flip = required_lem require_flip (flip_completions ∷ commit ∷ []) samples in
      let moved = required_lem require_progress (progress ∷ []) samples in
      let ends = end_checks progress samples require_flip require_progress in
      let outer = or_then-none (check_samples checks keys samples) (first_failing ends) in
      let last_ones = first_failing-Passes ends in
      elim (Bool-cases (ltb (length samples) minimum)) [
        | inl short ↦ rw short (λ h. cc, λ m. absurd (ground (arith, m.enough)))
        | inr long ↦ rw long (
          λ h.
              let (run, last) = outer.0 h in
              let (flips, others) = last_ones.0 last in
              record {
                enough = ground arith;
                steady = steady.0 run;
                flipped = flip.0 flips;
                progressed = moved.0 others.0;
              },
          λ m.
              outer.1
                (steady.1 m.steady, last_ones.1 (flip.1 m.flipped, (moved.1 m.progressed, tt))),
        )
      ]

-- Along steady samples no counter falls, from any sample to any later one.
module _ (IsGood : Sample → Type 0) (keys : List Counter) where
  NotFalling-refl : (ks : List Counter) (v : Sample) → NotFalling ks v v
  NotFalling-refl [] v = tt
  NotFalling-refl (k ∷ ks) v = (omega arith, NotFalling-refl ks v)

  NotFalling-trans :
      (ks : List Counter) (u v w : Sample)
      → NotFalling ks u v
      → NotFalling ks v w
      → NotFalling ks u w
  NotFalling-trans [] u v w h k = tt
  NotFalling-trans (key ∷ ks) u v w h k =
      (omega (arith, h.0, k.0), NotFalling-trans ks u v w h.1 k.1)

  later-NotFalling :
      (previous : Sample) (rest : List Sample) (j : ℕ) {w : Sample}
      → SteadyFrom IsGood keys previous rest
      → get_elem? rest j ≡ some w
      → NotFalling keys previous w
  later-NotFalling previous [] j h e = cc
  later-NotFalling previous (v ∷ rest) zero h e =
      subst (λ s. NotFalling keys previous s) (some-injective _ _ e) h.1
  later-NotFalling previous (v ∷ rest) (suc j) {w} h e =
      NotFalling-trans keys previous v w h.1 (later-NotFalling v rest j h.2 e)

  steady_from :
      (previous : Sample) (rest : List Sample) (i j : ℕ) {v w : Sample}
      → SteadyFrom IsGood keys previous rest
      → i < j
      → get_elem? rest i ≡ some v
      → get_elem? rest j ≡ some w
      → NotFalling keys v w
  steady_from previous [] i j h lt e k = cc
  steady_from previous (v ∷ rest) i zero h lt e k = absurd (omega arith)
  steady_from previous (v ∷ rest) zero (suc j) {w = w} h lt e k =
      subst (λ s. NotFalling keys s w) (some-injective _ _ e) (later-NotFalling v rest j h.2 k)
  steady_from previous (v ∷ rest) (suc i) (suc j) h lt e k =
      steady_from v rest i j h.2 (omega arith) e k

  pub Steady-NotFalling :
      (samples : List Sample) (i j : ℕ) {v w : Sample}
      → Steady IsGood keys samples
      → i < j
      → get_elem? samples i ≡ some v
      → get_elem? samples j ≡ some w
      → NotFalling keys v w
  Steady-NotFalling [] i j h lt e k = cc
  Steady-NotFalling (v ∷ rest) i zero h lt e k = absurd (omega arith)
  Steady-NotFalling (v ∷ rest) zero (suc j) {w = w} h lt e k =
      subst (λ s. NotFalling keys s w) (some-injective _ _ e) (later-NotFalling v rest j h.1 k)
  Steady-NotFalling (v ∷ rest) (suc i) (suc j) h lt e k =
      steady_from v rest i j h.1 (omega arith) e k
