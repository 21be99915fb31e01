-- ===== src/Hardware/Boot/Order.antt =====
-- What `boot_contract_problem` (m9-hardware-test.py) demands of a boot log.
use micro_nux.Base.{
  ℕ, ◌+◌, ◌≤◌, ◌≡◌, refl, ◌↔◌, none, List, [], ◌∷◌, Text, codes, All, arith, Option-cases,
  Bool-cases, inl, inr,
}
use micro_nux.Base.Find.{
  find_from, Occurs, OccursAt, find_from-some, find_from-first, is_within-Occurs,
}
use micro_nux.Base.Strings.{is_within}
use micro_nux.Hardware.{failure_marker, failure_markers, first_within}
use micro_nux.Hardware.Boot.{
  ordered_markers, required_fragments, first_out_of_order, first_missing, boot_contract_problem,
}

-- The texts stand in the log at places that go up, from a place on.
abbrev pub InOrder : List Text → Text → ℕ → Type 0
InOrder [] boot_log start = Unit
InOrder (expected ∷ rest) boot_log start =
    (i : ℕ) × (start ≤ i) × OccursAt expected boot_log i × InOrder rest boot_log (i + 1)

InOrder-earlier :
    (markers : List Text) (boot_log : Text) (early start : ℕ)
    → early ≤ start
    → InOrder markers boot_log start
    → InOrder markers boot_log early
InOrder-earlier [] boot_log early start le h = tt
InOrder-earlier (m ∷ ms) boot_log early start le (i, from, at, rest) = (i, omega arith, at, rest)

-- Taking the first place each time misses no order.
pub first_out_of_order-InOrder :
    (markers : List Text) (boot_log : Text) (start : ℕ)
    → (first_out_of_order markers boot_log start ≡ none) ↔ InOrder markers boot_log start
unfolding first_out_of_order
first_out_of_order-InOrder [] boot_log start = (λ h. tt, λ h. refl)
first_out_of_order-InOrder (m ∷ ms) boot_log start = (
  λ h. elim (Option-cases (find_from m boot_log start)) [
    | inl e ↦ absurd (ground (arith, e))
    | inr (i, e) ↦
        let (from, at) = find_from-some m boot_log start e in
        let rest : first_out_of_order ms boot_log (i + 1) ≡ none = ground (arith, e) in
        (i, from, at, (first_out_of_order-InOrder ms boot_log (i + 1)).0 rest)
  ],
  λ (j, from, at, rest).
      let (i, e, le) = find_from-first m boot_log start j from at in
      rw (first_out_of_order, e)
        ((first_out_of_order-InOrder ms boot_log (i + 1)).1
          (InOrder-earlier ms boot_log (i + 1) (j + 1) (omega arith) rest)),
)

pub first_missing-All :
    (fragments : List Text) (boot_log : Text)
    → (first_missing fragments boot_log ≡ none) ↔ All (λ f. Occurs f boot_log) fragments
unfolding first_missing
first_missing-All [] boot_log = (λ h. tt, λ h. refl)
first_missing-All (f ∷ fs) boot_log =
    let (forth, back) = first_missing-All fs boot_log in
    let (held, holds) = is_within-Occurs f boot_log in
    elim (Bool-cases (is_within f boot_log)) [
      | inl e ↦ rw e (λ h. (held e, forth h), λ h. back h.1)
      | inr e ↦ rw e (λ h. cc, λ h. let no = holds h.0 in cc)
    ]

pub first_within-All :
    (markers : List Text) (output : Text)
    → (first_within markers output ≡ none) ↔ All (λ m. Occurs m output → ⊥) markers
unfolding first_within
first_within-All [] output = (λ h. tt, λ h. refl)
first_within-All (m ∷ ms) output =
    let (forth, back) = first_within-All ms output in
    let (held, holds) = is_within-Occurs m output in
    elim (Bool-cases (is_within m output)) [
      | inl e ↦ rw e (λ h. cc, λ h. absurd (h.0 (held e)))
      | inr e ↦ rw e (λ h. (λ occurs. let no = holds occurs in cc, forth h), λ h. back h.1)
    ]

-- A boot log that passes.
pub record GoodBoot (boot_log : Text) : Type 0 where
  pub unmarked : All (λ m. Occurs m boot_log → ⊥) failure_markers
  pub version : Occurs (codes "Linux version 6.12.27") boot_log
  pub ordered : InOrder ordered_markers boot_log 0
  pub complete : All (λ f. Occurs f boot_log) required_fragments

-- A boot log has no problem exactly if no failure marker stands in it, the kernel's version does, the
-- markers of the boot stand at places that go up, and every required fragment stands somewhere.
pub boot_contract_problem-GoodBoot :
    (boot_log : Text) → (boot_contract_problem boot_log ≡ none) ↔ GoodBoot boot_log
unfolding boot_contract_problem failure_marker
boot_contract_problem-GoodBoot boot_log =
    let (unmarked, no_marker) = first_within-All failure_markers boot_log in
    let (has, versioned) = is_within-Occurs (codes "Linux version 6.12.27") boot_log in
    let (ordered, in_order) = first_out_of_order-InOrder ordered_markers boot_log 0 in
    let (complete, none_missing) = first_missing-All required_fragments boot_log in
    (
      λ h. record {
        unmarked = unmarked (ground arith);
        version = has (ground arith);
        ordered = ordered (ground arith);
        complete = complete (ground arith);
      },
      λ g.
          rw
            (
              boot_contract_problem,
              no_marker g.unmarked,
              versioned g.version,
              in_order g.ordered,
              none_missing g.complete,
            )
            refl,
    )
