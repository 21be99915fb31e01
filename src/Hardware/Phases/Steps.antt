-- ===== src/Hardware/Phases/Steps.antt =====
-- What `diagnostics_phase_problem` (m9-hardware-test.py) demands of the phases of a run.
use micro_nux.Base.{
  ℕ, ◌≤◌, ◌≡◌, refl, ◌↔◌, true, List, [], ◌∷◌, Text, map, All, text_eq_refl, text_eq→eq, ok,
  Result-cases, inl, inr, arith, sym, ap, ◌∙◌, subst,
}
use micro_nux.Hardware.Samples.{Sample, arm_to_irq_over20ms, fifo_irq_zero, fifo_poll_zero}
use micro_nux.Hardware.Phases.{
  texts_eq, single_samples, check_steps, check_samples, check_groups, diagnostics_phase_groups,
  diagnostics_phase_problem,
}

pub texts_eq-eq : (ss ts : List Text) → (texts_eq ss ts ≡ true) ↔ (ss ≡ ts)
unfolding texts_eq
texts_eq-eq [] [] = (λ h. refl, λ h. refl)
texts_eq-eq [] (t ∷ ts) = (λ h. cc, λ h. cc)
texts_eq-eq (s ∷ ss) [] = (λ h. cc, λ h. cc)
texts_eq-eq (s ∷ ss) (t ∷ ts) =
    let (forth, back) = texts_eq-eq ss ts in
    (
      λ h. let same = text_eq→eq s t (ground arith) in let others = forth (ground arith) in cc,
      λ h.
          let same : s ≡ t = cc in
          let others : ss ≡ ts = cc in rw (same, text_eq_refl t) (back others),
    )

-- A phase with its only sample.
abbrev pub lone : Text × Sample → Text × List Sample
lone (phase, sample) = (phase, sample ∷ [])

-- The display was never late in the phase, and its queue never seen empty by polling.
abbrev pub NeverLate : Text × Sample → Type 0
NeverLate (phase, sample) =
    (sample.count fifo_poll_zero ≡ 0) × (sample.count arm_to_irq_over20ms ≡ 0)

-- The count of empty queues at an interrupt does not fall.
abbrev pub RisingFrom : ℕ → List (Text × Sample) → Type 0
RisingFrom n [] = Unit
RisingFrom n ((phase, sample) ∷ rest) =
    (n ≤ sample.count fifo_irq_zero) × RisingFrom (sample.count fifo_irq_zero) rest

abbrev pub NoneSeen : List (Text × Sample) → Type 0
NoneSeen = All (λ (p : Text × Sample). p.1.count fifo_poll_zero ≡ 0)

single_samples-lone :
    (groups : List (Text × List Sample)) (taken : List (Text × Sample))
    → single_samples groups ≡ ok taken
    → (groups ≡ map lone taken) × NoneSeen taken
unfolding single_samples
single_samples-lone [] [] h = (refl, tt)
single_samples-lone [] (t ∷ ts) h = cc
single_samples-lone ((phase, []) ∷ rest) taken h = cc
single_samples-lone ((phase, s ∷ t ∷ more) ∷ rest) taken h = cc
single_samples-lone ((phase, s ∷ []) ∷ rest) taken h = elim (Result-cases (single_samples rest)) [
  | inr (e, failed) ↦ absurd (ground arith)
  | inl (others, found) ↦
      let (same, unseen) = single_samples-lone rest others found in
      let seen : s.count fifo_poll_zero ≡ 0 = ground arith in
      let all : (phase, s) ∷ others ≡ taken = ground arith in
      subst (λ ts. ((phase, s ∷ []) ∷ rest ≡ map lone ts) × NoneSeen ts) all
        (ap (λ gs. (phase, s ∷ []) ∷ gs) same, (seen, unseen))
]

lone-single_samples :
    (taken : List (Text × Sample)) → NoneSeen taken → single_samples (map lone taken) ≡ ok taken
unfolding single_samples
lone-single_samples [] h = refl
lone-single_samples ((phase, s) ∷ rest) h = rw (h.0, lone-single_samples rest h.1) refl

check_steps-Rising :
    (phase : Text) (previous : Sample) (rest : List (Text × Sample))
    → previous.count arm_to_irq_over20ms ≡ 0
    → previous.count fifo_poll_zero ≡ 0
    → NoneSeen rest
    → (check_steps phase previous rest ≡ ok tt)
      ↔ (All NeverLate rest × RisingFrom (previous.count fifo_irq_zero) rest)
unfolding check_steps
check_steps-Rising phase previous [] late seen none_seen = (λ h. (tt, tt), λ h. refl)
check_steps-Rising phase previous ((next, current) ∷ rest) late seen none_seen = (
  λ h.
      let late_now : current.count arm_to_irq_over20ms ≡ 0 = ground arith in
      let rising : previous.count fifo_irq_zero ≤ current.count fifo_irq_zero = ground arith in
      let later : check_steps next current rest ≡ ok tt = ground arith in
      let (never, rises) =
        (check_steps-Rising next current rest late_now none_seen.0 none_seen.1).0 later in
      (((none_seen.0, late_now), never), (rising, rises)),
  λ ((now, never), (rising, rises)).
      let later =
        (check_steps-Rising next current rest now.1 none_seen.0 none_seen.1).1 (never, rises) in
      rw later (ground arith),
)

-- What the phases of a run must show.
pub record PhasesPass (output : Text) (expected_phases : List Text) : Type 0 where
  pub taken : List (Text × Sample)
  pub alone : diagnostics_phase_groups output ≡ map lone taken
  pub in_order : map (λ (p : Text × Sample). p.0) taken ≡ expected_phases
  pub never_late : All NeverLate taken
  pub rising : RisingFrom 0 taken

map-lone :
    (taken : List (Text × Sample))
    → map (λ (g : Text × List Sample). g.0) (map lone taken)
      ≡ map (λ (p : Text × Sample). p.0) taken
map-lone [] = refl
map-lone (t ∷ ts) = ap (λ rest. t.0 ∷ rest) (map-lone ts)

check_samples-Rising :
    (taken : List (Text × Sample))
    → NoneSeen taken
    → (check_samples taken ≡ ok tt) ↔ (All NeverLate taken × RisingFrom 0 taken)
unfolding check_samples
check_samples-Rising [] none_seen = (λ h. (tt, tt), λ h. refl)
check_samples-Rising ((phase, s) ∷ rest) none_seen = (
  λ h.
      let late : s.count arm_to_irq_over20ms ≡ 0 = ground arith in
      let later : check_steps phase s rest ≡ ok tt = ground arith in
      let (never, rises) = (check_steps-Rising phase s rest late none_seen.0 none_seen.1).0 later in
      (((none_seen.0, late), never), (omega arith, rises)),
  λ ((now, never), (rising, rises)).
      let later =
        (check_steps-Rising phase s rest now.1 none_seen.0 none_seen.1).1 (never, rises) in
      rw (now.1, later) refl,
)

NoneSeen-of : (taken : List (Text × Sample)) → All NeverLate taken → NoneSeen taken
NoneSeen-of [] h = tt
NoneSeen-of (t ∷ ts) h = (h.0.0, NoneSeen-of ts h.1)

-- diagnostics_phase_problem returns None exactly if the phases of the output are the expected ones in
-- order, each has one diagnostics line, no line shows an interrupt over 20 ms or a queue that polling
-- saw empty, and the count of queues empty at an interrupt does not fall from phase to phase.
pub diagnostics_phase_problem-PhasesPass :
    (output : Text) (expected_phases : List Text)
    → (diagnostics_phase_problem output expected_phases ≡ ok tt) ↔ PhasesPass output expected_phases
unfolding diagnostics_phase_problem check_groups
diagnostics_phase_problem-PhasesPass output expected = (
  λ h. elim (Result-cases (single_samples groups)) [
    | inr (e, failed) ↦ absurd (ground arith)
    | inl (taken, found) ↦
        let (same, none_seen) = single_samples-lone groups taken found in
        let named : texts_eq (map (λ (g : Text × List Sample). g.0) groups) expected ≡ true =
          ground arith in
        let checked : check_samples taken ≡ ok tt = ground arith in
        let (never, rises) = (check_samples-Rising taken none_seen).0 checked in
        record {
          taken = taken;
          alone = same;
          in_order =
              sym (map-lone taken)
              ∙ ap (map (λ (g : Text × List Sample). g.0)) (sym same)
              ∙ (texts_eq-eq _ _).0 named;
          never_late = never;
          rising = rises;
        }
  ],
  λ p.
      let none_seen = NoneSeen-of p.taken p.never_late in
      let named =
        (texts_eq-eq (map (λ (g : Text × List Sample). g.0) (map lone p.taken)) expected).1
          (map-lone p.taken ∙ p.in_order) in
      rw (p.alone, named, lone-single_samples p.taken none_seen)
        ((check_samples-Rising p.taken none_seen).1 (p.never_late, p.rising)),
)
  where
    groups : List (Text × List Sample)
    groups = diagnostics_phase_groups output
