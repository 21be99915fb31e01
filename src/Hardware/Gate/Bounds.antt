-- ===== src/Hardware/Gate/Bounds.antt =====
-- The bounds of the arguments of `main` (m9-hardware-test.py).
use micro_nux.Base.{
  ℕ, ◌≤◌, ◌≡◌, ◌↔◌, false, ◌||◌, ltb, ℤ, pos, negsuc, ok, raise_if, raise_if-false, both, arith,
}
use micro_nux.Hardware.Gate.{Arguments, Exit, check_arguments, exceeds, outside}

-- A value between two bounds.
abbrev pub Within : ℤ → ℕ → ℕ → Type 0
Within (pos n) least most = (least ≤ n) × (n ≤ most)
Within (negsuc n) least most = ⊥

outside-Within :
    (z : ℤ) (least most : ℕ) (e : Exit)
    → (raise_if (outside z least most) e ≡ ok tt) ↔ Within z least most
unfolding outside
outside-Within (pos n) least most e =
    let (asks, passes) = raise_if-false (ltb n least || ltb most n) e in
    (
      λ h. let no = asks h in (ground (arith, no), ground (arith, no)),
      λ h. passes (ground (arith, h)),
    )
outside-Within (negsuc n) least most e = (λ h. cc, λ h. absurd h)

abbrev pub ArgumentsFit : Arguments → Type 0
ArgumentsFit args =
    Within args.point_timeout_ms 5_000 120_000
    × (Within args.soak_seconds 60 900
        × (Within args.sample_seconds 5 60
            × ((exceeds args.sample_seconds args.soak_seconds ≡ false)
                × (Within args.disconnect_seconds 5 900
                    × (Within args.snapshot_seconds 1 30 × Within args.stress_cycles 1 10)))))

pub check_arguments-ArgumentsFit :
    (args : Arguments) → (check_arguments args ≡ ok tt) ↔ ArgumentsFit args
unfolding check_arguments
check_arguments-ArgumentsFit args = both (outside-Within args.point_timeout_ms 5_000 120_000 _) (
    both (outside-Within args.soak_seconds 60 900 _) (
      both (outside-Within args.sample_seconds 5 60 _) (
        both (raise_if-false (exceeds args.sample_seconds args.soak_seconds) _) (
          both (outside-Within args.disconnect_seconds 5 900 _) (
            both (outside-Within args.snapshot_seconds 1 30 _)
              (outside-Within args.stress_cycles 1 10 _))))))
