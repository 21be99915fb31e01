-- ===== src/Display/Layout/Frames.antt =====
-- What the checks on the frames (m9-2-display-contract-test.py) ask.
use micro_nux.Base.{
  ℕ, ◌+◌, ◌%◌, ◌≤◌, ◌≡◌, ◌↔◌, ◌⊎◌, inl, refl, false, ◌&&◌, ltb, List, [], ◌∷◌, ok, arith, All,
  then_ok, raise_if-false, map,
}
use micro_nux.Display.Layout.{
  frame_size, display_pool, loader_psram, check_frame, check_each, check_against, check_overlaps,
  check_frames, frame_range, frame_overlap,
}

-- Two address ranges have no byte in common.
abbrev pub Disjoint : ℕ × ℕ → ℕ × ℕ → Type 0
Disjoint first second = (first.1 ≤ second.0) ⊎ (second.1 ≤ first.0)

abbrev pub PairwiseDisjoint : List (ℕ × ℕ) → Type 0
PairwiseDisjoint [] = Unit
PairwiseDisjoint (first ∷ rest) = All (Disjoint first) rest × PairwiseDisjoint rest

check_against-All :
    (first : ℕ × ℕ) (rest : List (ℕ × ℕ))
    → (check_against first rest ≡ ok tt) ↔ All (Disjoint first) rest
unfolding check_against
check_against-All first [] = (λ h. tt, λ h. refl)
check_against-All first (second ∷ rest) =
    let (apart, clear) =
      raise_if-false (ltb first.0 second.1 && ltb second.0 first.1) frame_overlap in
    let (all, back) = check_against-All first rest in
    (
      λ h. let (one, two) = (then_ok _ _).0 h in (disjoint (apart one), all two),
      λ h. (then_ok _ _).1 (clear (touching h.0), back h.1),
    )
  where
    disjoint : (ltb first.0 second.1 && ltb second.0 first.1) ≡ false → Disjoint first second
    disjoint h = ground arith

    touching : Disjoint first second → (ltb first.0 second.1 && ltb second.0 first.1) ≡ false
    touching h = ground arith

pub check_overlaps-PairwiseDisjoint :
    (ranges : List (ℕ × ℕ)) → (check_overlaps ranges ≡ ok tt) ↔ PairwiseDisjoint ranges
unfolding check_overlaps
check_overlaps-PairwiseDisjoint [] = (λ h. tt, λ h. refl)
check_overlaps-PairwiseDisjoint (first ∷ rest) =
    let (head, head_back) = check_against-All first rest in
    let (tail, tail_back) = check_overlaps-PairwiseDisjoint rest in
    (
      λ h. let (one, two) = (then_ok _ _).0 h in (head one, tail two),
      λ h. (then_ok _ _).1 (head_back h.0, tail_back h.1),
    )

-- A frame in the loader's memory passes the loop's checks when it is aligned.
check_front :
    (alignment address : ℕ)
    → address + frame_size ≤ loader_psram.1
    → (check_frame alignment 0 address ≡ ok tt) ↔ (address % alignment ≡ 0)
unfolding check_frame
check_front alignment address le = (λ h. ground arith, λ h. ground arith)

check_back :
    (alignment index address : ℕ)
    → display_pool.0 ≤ address
    → address + frame_size ≤ display_pool.1
    → address % alignment ≡ 0
    → check_frame alignment index address ≡ ok tt
unfolding check_frame
check_back alignment index address ge le aligned = ground arith

-- The display pool's two frames come after the loader's, and the three are apart.
pub check_frames_lem :
    (alignment address : ℕ)
    → address + frame_size ≤ loader_psram.1
    → 0x4930_0000 % alignment ≡ 0
    → 0x4950_0000 % alignment ≡ 0
    → (check_frames alignment (address ∷ 0x4930_0000 ∷ 0x4950_0000 ∷ []) ≡ ok tt)
      ↔ (address % alignment ≡ 0)
unfolding check_frames check_each
check_frames_lem alignment address le second third =
    let (front, back) = check_front alignment address le in
    let one = check_back alignment 1 0x4930_0000 (omega arith) (omega arith) second in
    let two = check_back alignment 2 0x4950_0000 (omega arith) (omega arith) third in
    let (_, apart) =
      check_overlaps-PairwiseDisjoint
        (map frame_range (address ∷ 0x4930_0000 ∷ 0x4950_0000 ∷ [])) in
    let far =
      apart ((inl (omega arith), (inl (omega arith), tt)), ((inl (omega arith), tt), (tt, tt))) in
    (
      λ h. front ((then_ok _ _).0 ((then_ok _ _).0 h).0).0,
      λ h.
          (then_ok _ _).1
            ((then_ok _ _).1 (back h, (then_ok _ _).1 (one, (then_ok _ _).1 (two, refl))), far),
    )
