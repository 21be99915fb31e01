-- ===== src/Hardware/Framebuffer/Unchanged.antt =====
-- What `framebuffer_hash_problem` (m9-hardware-test.py) demands of the hashes of a run.
use micro_nux.Base.{
  ◌≡◌, ◌≢◌, refl, ◌↔◌, true, false, List, [], ◌∷◌, Text, All, text_eq, text_eq_refl, text_eq→eq, ok,
  Bool-cases, Result-cases, inl, inr, arith, ◌∙◌, ap, subst, map,
}
use micro_nux.Hardware.Framebuffer.{
  empty_sha256, phase_hashes, collect_hashes, compare_hashes, compare_all, framebuffer_hash_problem,
  only_hash,
}

-- Each phase has one line in the output, and all lines have the same hash, not that of no bytes.
pub record Unchanged (output : Text) (phases : List Text) : Type 0 where
  pub some_phase : phases ≢ []
  pub hash : Text
  pub not_empty : hash ≢ empty_sha256
  pub alone : All (λ phase. phase_hashes output phase ≡ hash ∷ []) phases

text_eq-false : (s t : Text) → s ≢ t → text_eq s t ≡ false
text_eq-false s t h = elim (Bool-cases (text_eq s t)) [
  | inl e ↦ absurd (h (text_eq→eq s t e))
  | inr e ↦ e
]

text_eq-apart : (s t : Text) → text_eq s t ≡ false → s ≢ t
text_eq-apart s t h same = let held : text_eq s t ≡ true = rw same (text_eq_refl t) in cc

-- The hashes that are collected are the only ones of their phases.
abbrev Collected : Text → List Text → List (Text × Text) → Type 0
Collected output [] [] = Unit
Collected output [] (h ∷ hs) = ⊥
Collected output (phase ∷ phases) [] = ⊥
Collected output (phase ∷ phases) ((name, hash) ∷ hashes) =
    (name ≡ phase)
    × (phase_hashes output phase ≡ hash ∷ [])
    × (hash ≢ empty_sha256)
    × Collected output phases hashes

module _ (output : Text) where
  only_hash-ok :
      (phase : Text) (found : List Text) (hash : Text)
      → only_hash phase found ≡ ok hash
      → found ≡ hash ∷ []
  unfolding only_hash
  only_hash-ok phase [] hash h = cc
  only_hash-ok phase (a ∷ []) hash h = cc
  only_hash-ok phase (a ∷ b ∷ more) hash h = cc

  collected :
      (phases : List Text) (hashes : List (Text × Text))
      → collect_hashes output phases ≡ ok hashes
      → Collected output phases hashes
  unfolding collect_hashes
  collected [] [] h = tt
  collected [] (x ∷ xs) h = cc
  collected (phase ∷ phases) hashes h =
      elim (Result-cases (only_hash phase (phase_hashes output phase))) [
        | inr (e, failed) ↦ absurd (ground arith)
        | inl (hash, only) ↦ elim (Result-cases (collect_hashes output phases)) [
          | inr (e, failed) ↦ absurd (ground arith)
          | inl (others, found) ↦
              let full : text_eq hash empty_sha256 ≡ false = ground arith in
              let all : (phase, hash) ∷ others ≡ hashes = ground arith in
              let apart : hash ≢ empty_sha256 = λ same. text_eq-apart hash empty_sha256 full same in
              subst (λ hs. Collected output (phase ∷ phases) hs) all
                (refl, only_hash-ok phase _ hash only, apart, collected phases others found)
        ]
      ]

  recollect :
      (phases : List Text) (hash : Text)
      → hash ≢ empty_sha256
      → All (λ phase. phase_hashes output phase ≡ hash ∷ []) phases
      → collect_hashes output phases ≡ ok (map (λ phase. (phase, hash)) phases)
  unfolding collect_hashes only_hash
  recollect [] hash apart h = refl
  recollect (phase ∷ phases) hash apart h =
      rw (h.0, text_eq-false hash empty_sha256 apart, recollect phases hash apart h.1) refl

  same_hashes :
      (name reference : Text) (hashes : List (Text × Text))
      → (compare_hashes name reference hashes ≡ ok tt)
        ↔ All (λ (p : Text × Text). p.1 ≡ reference) hashes
  unfolding compare_hashes
  same_hashes name reference [] = (λ h. tt, λ h. refl)
  same_hashes name reference ((phase, value) ∷ rest) =
      let (forth, back) = same_hashes name reference rest in
      elim (Bool-cases (text_eq value reference)) [
        | inl e ↦ rw e (λ h. (text_eq→eq value reference e, forth h), λ h. back h.1)
        | inr e ↦ rw e (
          λ h. cc,
          λ h. let same : text_eq value reference ≡ true = rw h.0 (text_eq_refl reference) in cc,
        )
      ]

  alone_of :
      (reference : Text) (phases : List Text) (hashes : List (Text × Text))
      → Collected output phases hashes
      → All (λ (p : Text × Text). p.1 ≡ reference) hashes
      → All (λ phase. phase_hashes output phase ≡ reference ∷ []) phases
  alone_of reference [] [] c h = tt
  alone_of reference [] (x ∷ xs) c h = absurd c
  alone_of reference (phase ∷ phases) [] c h = absurd c
  alone_of reference (phase ∷ phases) ((name, hash) ∷ hashes) c h =
      (c.1 ∙ ap (λ t. t ∷ []) h.0, alone_of reference phases hashes c.3 h.1)

  compared :
      (phases : List Text) (hashes : List (Text × Text))
      → Collected output phases hashes
      → compare_all hashes ≡ ok tt
      → Unchanged output phases
  unfolding compare_all
  compared [] [] c h = cc
  compared [] (x ∷ xs) c h = absurd c
  compared (phase ∷ phases) [] c h = absurd c
  compared (phase ∷ phases) ((name, hash) ∷ hashes) c h = record {
    some_phase = λ e. cc;
    hash = hash;
    not_empty = c.2;
    alone = (c.1, alone_of hash phases hashes c.3 ((same_hashes name hash hashes).0 h));
  }

  equal_map :
      (hash : Text) (phases : List Text)
      → All (λ (p : Text × Text). p.1 ≡ hash) (map (λ phase. (phase, hash)) phases)
  equal_map hash [] = tt
  equal_map hash (phase ∷ phases) = (refl, equal_map hash phases)

  Unchanged-passes :
      (phases : List Text)
      → Unchanged output phases
      → framebuffer_hash_problem output phases ≡ ok tt
  unfolding framebuffer_hash_problem compare_all
  Unchanged-passes [] u = absurd (u.some_phase refl)
  Unchanged-passes (phase ∷ phases) u =
      rw (recollect (phase ∷ phases) u.hash u.not_empty u.alone)
        ((same_hashes phase u.hash (map (λ p. (p, u.hash)) phases)).1 (equal_map u.hash phases))

  -- framebuffer_hash_problem returns None exactly if there is a phase, each phase has one hash line in
  -- the output, and all of them show the same hash, which is not the hash of no bytes.
  pub framebuffer_hash_problem-Unchanged :
      (phases : List Text)
      → (framebuffer_hash_problem output phases ≡ ok tt) ↔ Unchanged output phases
  unfolding framebuffer_hash_problem
  framebuffer_hash_problem-Unchanged phases = (
    λ h. elim (Result-cases (collect_hashes output phases)) [
      | inr (e, failed) ↦ absurd (ground arith)
      | inl (hashes, found) ↦
          let passed : compare_all hashes ≡ ok tt = ground arith in
          compared phases hashes (collected phases hashes found) passed
    ],
    λ u. Unchanged-passes phases u,
  )
