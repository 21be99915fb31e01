-- ===== src/Hardware/Identity/Verified.antt =====
-- What a board has shown when `verify_runtime_identity` (m9-hardware-test.py) returns None.
use micro_nux.Base.{
  ℕ, true, ◌<◌, ◌≡◌, ◌↔◌, refl, ap, sym, ◌∙◌, not, leb, List, [], ◌∷◌, Text, codes, map, text_eq,
  text_eq_refl, text_eq→eq, ok, raise_if, raise_if-false, both, then_ok, arith, subst,
}
use micro_nux.Base.Floats.{float_of}
use micro_nux.Hardware.Phases.{texts_eq}
use micro_nux.Hardware.Serial.{CommandResult, Outcome}
use micro_nux.Hardware.Preflight.{
  Stop, boot_id_changed, boot_id_samples_invalid, uptime_samples_invalid,
}
use micro_nux.Hardware.Preflight.Checks.{equals, not-false, same_texts}
use micro_nux.Hardware.Preflight.Passed.{Answers, step-Answers}
use micro_nux.Hardware.Identity.{
  boot_samples, check_identity, first_two, judge_identity, not_identified, two_samples,
  uptime_samples, verify_runtime_identity,
}
use micro_nux.Hardware.Identity.Commands.{identity_command}

-- One boot, at two times.
pub record OneBoot (boots uptimes : List (Text × Text)) : Type 0 where
  pub boot_id : Text
  pub first : Text
  pub second : Text
  pub booted : boots ≡ (codes "a", boot_id) ∷ (codes "b", boot_id) ∷ []
  pub timed : uptimes ≡ (codes "a", first) ∷ (codes "b", second) ∷ []
  pub advancing : float_of first < float_of second

-- A list of two samples with the names a and b.
abbrev Two : List (Text × Text) → Type 0
Two samples =
    (first : Text) × (second : Text) × (samples ≡ (codes "a", first) ∷ (codes "b", second) ∷ [])

split_samples :
    (samples : List (Text × Text))
    → map (λ (s : Text × Text). s.0) samples ≡ two_samples
    → Two samples
split_samples [] h = cc
split_samples (a ∷ []) h = cc
split_samples (a ∷ b ∷ c ∷ rest) h = cc
split_samples (a ∷ b ∷ []) h =
    let one : a.0 ≡ codes "a" = cc in
    let two : b.0 ≡ codes "b" = cc in (a.1, b.1, λ i. (one i, a.1) ∷ (two i, b.1) ∷ [])

equal_texts : (a b : Text) (e : Stop) → (raise_if (not (text_eq a b)) e ≡ ok tt) ↔ (a ≡ b)
equal_texts a b e =
    let (asks, passes) = raise_if-false (not (text_eq a b)) e in
    (
      λ h. text_eq→eq a b (not-false _ (asks h)),
      λ h. passes (ap not (subst (λ t. text_eq a t ≡ true) h (text_eq_refl a))),
    )

less : (a b : ℕ) (e : Stop) → (raise_if (leb b a) e ≡ ok tt) ↔ (a < b)
less a b e =
    let (asks, passes) = raise_if-false (leb b a) e in
    (λ h. let no = asks h in ground (arith, no), λ h. passes (ground (arith, h)))

boots_named :
    (boots uptimes : List (Text × Text))
    → check_identity boots uptimes ≡ ok tt
    → map (λ (s : Text × Text). s.0) boots ≡ two_samples
unfolding check_identity
boots_named boots uptimes h =
    let names = map (λ (s : Text × Text). s.0) boots in
    let e = not_identified boot_id_samples_invalid in
    (same_texts names two_samples e).0
      ((then_ok (raise_if (not (texts_eq names two_samples)) e) _).0 h).0

uptimes_named :
    (x y : Text) (uptimes : List (Text × Text))
    → check_identity ((codes "a", x) ∷ (codes "b", y) ∷ []) uptimes ≡ ok tt
    → map (λ (s : Text × Text). s.0) uptimes ≡ two_samples
unfolding check_identity first_two texts_eq text_eq
uptimes_named x y uptimes h =
    let names = map (λ (s : Text × Text). s.0) uptimes in
    let e = not_identified uptime_samples_invalid in
    let changed = not_identified boot_id_changed in
    let rest = ((then_ok (raise_if (not (text_eq x y)) changed) _).0 h).1 in
    (same_texts names two_samples e).0
      ((then_ok (raise_if (not (texts_eq names two_samples)) e) _).0 rest).0

-- The checks on two samples of each kind.
on_two :
    (x y s t : Text)
    → (check_identity ((codes "a", x) ∷ (codes "b", y) ∷ []) ((codes "a", s) ∷ (codes "b", t) ∷ [])
        ≡ ok tt)
      ↔ ((x ≡ y) × (float_of s < float_of t))
unfolding check_identity first_two texts_eq text_eq
on_two x y s t = both (equal_texts x y _) (less (float_of s) (float_of t) _)

check_identity-OneBoot :
    (boots uptimes : List (Text × Text))
    → (check_identity boots uptimes ≡ ok tt) ↔ OneBoot boots uptimes
check_identity-OneBoot boots uptimes = (asks, passes)
  where
    asks : check_identity boots uptimes ≡ ok tt → OneBoot boots uptimes
    asks h =
        let (x, y, booted) = split_samples boots (boots_named boots uptimes h) in
        let h' = subst (λ b. check_identity b uptimes ≡ ok tt) booted h in
        let (s, t, timed) = split_samples uptimes (uptimes_named x y uptimes h') in
        let (same, rising) =
          (on_two x y s t).0 (
            subst (λ u. check_identity ((codes "a", x) ∷ (codes "b", y) ∷ []) u ≡ ok tt) timed
              h') in
        record {
          boot_id = x;
          first = s;
          second = t;
          booted = booted ∙ (λ i. (codes "a", x) ∷ (codes "b", sym same i) ∷ []);
          timed = timed;
          advancing = rising;
        }

    passes : OneBoot boots uptimes → check_identity boots uptimes ≡ ok tt
    passes o =
        (λ i. check_identity (o.booted i) (o.timed i))
        ∙ (on_two o.boot_id o.boot_id o.first o.second).1 (refl, o.advancing)

-- One command shows the same boot identifier twice, and two times since the boot that rise.
abbrev pub Identified : CommandResult → Type 0
Identified result =
    (result.return_code ≡ 0) × OneBoot (boot_samples result.output) (uptime_samples result.output)

-- `verify_runtime_identity` returns None exactly if the board answers its command by a result that succeeds
-- and shows one boot at two times: exactly two lines with a boot identifier, of the samples a and b, with the
-- same identifier, and exactly two lines with the time since the boot, of which the second is a greater
-- double than the first.
pub verify_runtime_identity-Identified :
    (run : Text → Text → ℕ → Outcome CommandResult)
    → (verify_runtime_identity run ≡ ok tt)
      ↔ Answers run identity_command (codes "RUNTIME_IDENTITY") 20_000 Identified
unfolding verify_runtime_identity judge_identity
verify_runtime_identity-Identified run =
    step-Answers run identity_command (codes "RUNTIME_IDENTITY") 20_000 judge_identity Identified
      judged
  where
    judged : (result : CommandResult) → (judge_identity result ≡ ok tt) ↔ Identified result
    judged result = both (equals result.return_code 0 _) (check_identity-OneBoot _ _)
