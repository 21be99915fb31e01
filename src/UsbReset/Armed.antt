-- ===== src/UsbReset/Armed.antt =====
-- When `main` of usb-reset-arm.py reports an armed reset.
use mathlib.Core.List.{append_assoc, append-nil}
use micro_nux.Base.{
  ℕ, suc, ◌+◌, ◌-◌, ◌≤◌, ◌<◌, ◌≡◌, refl, ◌↔◌, ◌⊎◌, inl, inr, true, none, some, List, [], ◌∷◌, ◌++◌,
  Text, length, take, drop, ltb, leb, if◌then◌else◌, Bool-cases, arith, sym, ap, ◌∙◌, subst,
  length-append, length-drop, drop-append_le, take-append_le, take-append-drop, drop-drop,
  take-append,
}
use micro_nux.Base.Find.{Occurs, OccursAt, is_within-Occurs}
use micro_nux.Base.Strings.{is_within}
use micro_nux.UsbReset.{Round, trim, hear, arm_loop, arm}

-- All bytes of the rounds.
pub stream : List Round → Text
stream [] = []
stream (r ∷ rounds) = r.chunk ++ stream rounds

module _ (token : Text) (wordy : 0 < length token) where
  place_lt : (text : Text) (i : ℕ) → OccursAt token text i → i + length token ≤ length text
  place_lt text i (back, e) =
      let sizes : length text - i ≡ length token + length back =
        sym (length-drop i text) ∙ ap length e ∙ length-append token back in
      omega arith

  OccursAt-append :
      (text more : Text) (i : ℕ) → OccursAt token text i → OccursAt token (text ++ more) i
  OccursAt-append text more i at =
      let inside = place_lt text i at in
      (
        at.0 ++ more,
        drop-append_le i text more (omega arith)
            ∙ ap (λ s. s ++ more) at.1
            ∙ append_assoc token at.0 more,
      )

  OccursAt-inside :
      (text more : Text) (i : ℕ)
      → i + length token ≤ length text
      → OccursAt token (text ++ more) i
      → OccursAt token text i
  OccursAt-inside text more i fits (back, e) =
      let rest : drop i text ++ more ≡ token ++ back =
        sym (drop-append_le i text more (omega arith)) ∙ e in
      let room : length token ≤ length (drop i text) = omega (arith, length-drop i text) in
      let front : take (length token) (drop i text) ≡ token =
        sym (take-append_le (length token) (drop i text) more room)
        ∙ ap (take (length token)) rest
        ∙ take-append (length token) token back refl in
      (
        drop (length token) (drop i text),
        sym (take-append-drop (length token) (drop i text))
            ∙ ap (λ s. s ++ drop (length token) (drop i text)) front,
      )

  -- The token has not come, and what is kept of the stream is all of it or long enough for the token.
  record Kept (total captured : Text) : Type 0 where
    absent : Occurs token total → ⊥
    lost : ℕ
    lost_le : lost ≤ length total
    kept : captured ≡ drop lost total
    enough : (lost ≡ 0) ⊎ (length token ≤ suc (length captured))

  module _ (total captured chunk : Text) (k : Kept total captured) where
    joined : captured ++ chunk ≡ drop k.lost (total ++ chunk)
    joined = ap (λ s. s ++ chunk) k.kept ∙ sym (drop-append_le k.lost total chunk k.lost_le)

    -- What is kept shows the token exactly if the stream does.
    kept_shows : Occurs token (captured ++ chunk) ↔ Occurs token (total ++ chunk)
    kept_shows = (
      λ (i, (back, e)). (
        k.lost + i,
        (
          back,
          sym (drop-drop i k.lost (k.lost + i) (total ++ chunk) refl)
              ∙ ap (drop i) (sym joined)
              ∙ e,
        ),
      ),
      λ (i, (back, e)).
          let late : length total < i + length token =
            elim (le-cases (i + length token) (length total)) [
              | inl fits ↦ absurd (k.absent (i, OccursAt-inside total chunk i fits (back, e)))
              | inr past ↦ past
            ] in
          let from : k.lost ≤ i = from_lost i late in
          (
            i - k.lost,
            (
              back,
              ap (drop (i - k.lost)) joined
                  ∙ drop-drop (i - k.lost) k.lost i (total ++ chunk) (omega arith)
                  ∙ e,
            ),
          ),
    )
      where
        le-cases : (a b : ℕ) → (a ≤ b) ⊎ (b < a)
        le-cases a b = elim (Bool-cases (leb a b)) [
          | inl h ↦ inl (ground arith)
          | inr h ↦ inr (ground arith)
        ]

        from_lost : (i : ℕ) → length total < i + length token → k.lost ≤ i
        from_lost i late = elim k.enough [
          | inl none_lost ↦ omega arith
          | inr room ↦
              let size : length captured ≡ length total - k.lost =
                ap length k.kept ∙ length-drop k.lost total in
              omega arith
        ]

    module _ (fits : length token ≤ 8192) (unheard : Occurs token (captured ++ chunk) → ⊥) where
      length_joined : length (captured ++ chunk) ≡ length (total ++ chunk) - k.lost
      length_joined = ap length joined ∙ length-drop k.lost (total ++ chunk)

      Kept-all : Kept (total ++ chunk) (captured ++ chunk)
      Kept-all = record {
        absent = λ occurs. unheard (kept_shows.1 occurs);
        lost = k.lost;
        lost_le = omega (arith, k.lost_le, length-append {0} total chunk);
        kept = joined;
        enough = elim k.enough [
          | inl none_lost ↦ inl none_lost
          | inr room ↦ inr (omega (arith, length-append {0} captured chunk))
        ];
      }

      Kept-last :
          16384 < length (captured ++ chunk)
          → Kept (total ++ chunk) (drop (length (captured ++ chunk) - 8192) (captured ++ chunk))
      Kept-last long =
          let cut = length (captured ++ chunk) - 8192 in
          record {
            absent = λ occurs. unheard (kept_shows.1 occurs);
            lost = k.lost + cut;
            lost_le = omega (arith, length_joined, k.lost_le, length-append {0} total chunk);
            kept = ap (drop cut) joined ∙ drop-drop cut k.lost (k.lost + cut) (total ++ chunk) refl;
            enough = inr (omega (arith, length-drop {0} cut (captured ++ chunk)));
          }

      Kept-trim : Kept (total ++ chunk) (trim (captured ++ chunk))
      unfolding trim
      Kept-trim = elim (Bool-cases (ltb 16384 (length (captured ++ chunk)))) [
        | inl h ↦ rw h (Kept-last (ground arith))
        | inr h ↦ rw h Kept-all
      ]

  Occurs-more : (text more : Text) → Occurs token text → Occurs token (text ++ more)
  Occurs-more text more (i, at) = (i, OccursAt-append text more i at)

  module _ (fits : length token ≤ 8192) where
    heard :
        (total captured chunk : Text)
        → Kept total captured
        → ((hear token captured chunk ≡ none) × Occurs token (total ++ chunk))
          ⊎ ((captured' : Text) × (hear token captured chunk ≡ some captured')
              × Kept (total ++ chunk) captured')
    unfolding hear
    heard total captured [] k =
        inr (captured, refl, subst (λ s. Kept s captured) (sym (append-nil total)) k)
    heard total captured (b ∷ bs) k =
        let chunk = b ∷ bs in
        let (forth, back) = is_within-Occurs token (captured ++ chunk) in
        elim (Bool-cases (is_within token (captured ++ chunk))) [
          | inl e ↦ inl (rw e refl, (kept_shows total captured chunk k).0 (forth e))
          | inr e ↦
              let unheard : Occurs token (captured ++ chunk) → ⊥ = λ o. let found = back o in cc in
              inr
                (trim (captured ++ chunk), rw e refl, Kept-trim total captured chunk k fits unheard)
        ]

    -- The loop, from bytes kept of a stream in which the token has not come.
    loop_hears :
        (next : ℕ) (total captured : Text) (rounds : List Round)
        → Kept total captured
        → ((arm_loop token next captured rounds).0 ≡ true) ↔ Occurs token (total ++ stream rounds)
    unfolding arm_loop stream
    loop_hears next total captured [] k = (
      λ h. cc,
      λ occurs. absurd (k.absent (subst (λ s. Occurs token s) (append-nil total) occurs)),
    )
    loop_hears next total captured (r ∷ rounds) k =
        let due = leb next r.now in
        let moved = append_assoc total r.chunk (stream rounds) in
        elim (heard total captured r.chunk k) [
          | inl (e, shows) ↦
              let whole = Occurs-more (total ++ r.chunk) (stream rounds) shows in
              rw (arm_loop, e) (λ h. subst (λ s. Occurs token s) moved whole, λ h. refl)
          | inr (captured', e, k') ↦
              let (forth, back) =
                loop_hears (if due then r.now + 500 else next) (total ++ r.chunk) captured' rounds
                  k' in
              rw (arm_loop, e)
                (
                  λ h. subst (λ s. Occurs token s) moved (forth h),
                  λ occurs. back (subst (λ s. Occurs token s) (sym moved) occurs),
                )
        ]

    -- For a token of 1 to 8192 bytes the reset is reported as armed exactly if the token stands in the
    -- bytes that the port gives before the deadline, across chunks too: dropping all but the last 8192
    -- captured bytes loses no token.
    pub arm-Occurs :
        (rounds : List Round) → ((arm token rounds).0 ≡ true) ↔ Occurs token (stream rounds)
    unfolding arm
    arm-Occurs rounds = loop_hears 0 [] [] rounds (record {
      absent = λ (i, at). let inside = place_lt [] i at in omega arith;
      lost = 0;
      lost_le = omega arith;
      kept = refl;
      enough = inl refl;
    })
