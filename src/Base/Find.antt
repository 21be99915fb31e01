-- ===== src/Base/Find.antt =====
-- `text.find(needle, start)` of Python, and the places where a text stands in another one.
use Prim.Native.Nat.{ℕ, zero, suc, ◌+◌, ◌-◌, ◌≤◌}
use mathlib.Core.Path.{◌≡◌, refl, sym, ◌∙◌, subst, ap}
use mathlib.Core.Logic.{◌↔◌, inl, inr}
use mathlib.Core.Bool.{true, false, ◌||◌}
use mathlib.Core.Option.{Option, none, some}
use mathlib.Core.List.{[], ◌∷◌, ◌++◌}
use native.Mathlib.Omega.{arith}
use mathlib.Core.Option.{some-injective}
use micro_nux.Base.Tests.{==_refl, if◌then◌else◌, Text, Bool-cases, Option-cases}
use micro_nux.Base.Lists.{drop, drop-drop}
use micro_nux.Base.Strings.{starts_with, is_within}

abbrev shifted : ℕ → Option ℕ → Option ℕ
shifted n none = none
shifted n (some i) = some (n + i)

abbrev one_more : Option ℕ → Option ℕ
one_more none = none
one_more (some i) = some (suc i)

-- `text.find(needle)`, `none` for -1.
unfoldable pub find_in : Text → Text → Option ℕ
unfolding starts_with
find_in needle [] = if starts_with [] needle then some 0 else none
find_in needle (c ∷ cs) =
    let rest = find_in needle cs in if starts_with (c ∷ cs) needle then some 0 else one_more rest

-- `text.find(needle, start)`, of a needle that is not empty.
unfoldable pub find_from : Text → Text → ℕ → Option ℕ
find_from needle text start = shifted start (find_in needle (drop start text))

-- The needle stands in the text at a place.
abbrev pub OccursAt : Text → Text → ℕ → Type 0
OccursAt needle text i = (back : Text) × (drop i text ≡ needle ++ back)

abbrev pub Occurs : Text → Text → Type 0
Occurs needle text = (i : ℕ) × OccursAt needle text i

starts_with-append :
    (text needle : Text)
    → (starts_with text needle ≡ true) ↔ ((back : Text) × (text ≡ needle ++ back))
unfolding starts_with
starts_with-append text [] = (λ h. (text, refl), λ h. refl)
starts_with-append [] (p ∷ ps) = (λ h. cc, λ (back, e). cc)
starts_with-append (c ∷ cs) (p ∷ ps) =
    let (forth, back) = starts_with-append cs ps in
    (
      λ h. let same : c ≡ p = ground arith in let (rest, e) = forth (ground arith) in (rest, cc),
      λ (rest, e).
          let same : c ≡ p = cc in
          let tails : cs ≡ ps ++ rest = cc in rw (same, ==_refl p) (back (rest, tails)),
    )

-- The first place.
abbrev pub FirstAt : Text → Text → ℕ → Type 0
FirstAt needle text i = OccursAt needle text i × ((j : ℕ) → OccursAt needle text j → i ≤ j)

first_here : (needle text : Text) → starts_with text needle ≡ true → FirstAt needle text 0
first_here needle text h = ((starts_with-append text needle).0 h, λ j at. omega arith)

not_here : (needle text : Text) → starts_with text needle ≡ false → OccursAt needle text 0 → ⊥
not_here needle text h at = let held = (starts_with-append text needle).1 at in cc

later_place :
    (needle : Text) (c : ℕ) (cs : Text) (i j : ℕ)
    → starts_with (c ∷ cs) needle ≡ false
    → ((k : ℕ) → OccursAt needle cs k → i ≤ k)
    → OccursAt needle (c ∷ cs) j
    → suc i ≤ j
later_place needle c cs i zero h first at = absurd (not_here needle (c ∷ cs) h at)
later_place needle c cs i (suc k) h first at = omega (arith, first k at)

nowhere_place :
    (needle : Text) (c : ℕ) (cs : Text) (j : ℕ)
    → starts_with (c ∷ cs) needle ≡ false
    → ((k : ℕ) → OccursAt needle cs k → ⊥)
    → OccursAt needle (c ∷ cs) j
    → ⊥
nowhere_place needle c cs zero h nowhere at = not_here needle (c ∷ cs) h at
nowhere_place needle c cs (suc k) h nowhere at = nowhere k at

-- In the empty text every place is the first.
empty_place : (needle : Text) (j : ℕ) → OccursAt needle [] j → OccursAt needle [] 0
empty_place needle zero at = at
empty_place needle (suc j) at = at

-- Nothing is found where the needle stands nowhere.
abbrev pub FoundIn : Text → Text → Option ℕ → Type 0
FoundIn needle text none = (j : ℕ) → OccursAt needle text j → ⊥
FoundIn needle text (some i) = FirstAt needle text i

FoundIn-shifted :
    (needle : Text) (c : ℕ) (cs : Text) (found : Option ℕ)
    → starts_with (c ∷ cs) needle ≡ false
    → FoundIn needle cs found
    → FoundIn needle (c ∷ cs) (one_more found)
FoundIn-shifted needle c cs none h nowhere = λ j at. nowhere_place needle c cs j h nowhere at
FoundIn-shifted needle c cs (some i) h (at, first) =
    (at, λ j found. later_place needle c cs i j h first found)

pub find_in-FoundIn : (needle text : Text) → FoundIn needle text (find_in needle text)
unfolding find_in
find_in-FoundIn needle [] = elim (Bool-cases (starts_with [] needle)) [
  | inl h ↦ rw h (first_here needle [] h)
  | inr h ↦ rw h (λ j at. not_here needle [] h (empty_place needle j at))
]
find_in-FoundIn needle (c ∷ cs) = elim (Bool-cases (starts_with (c ∷ cs) needle)) [
  | inl h ↦ rw h (first_here needle (c ∷ cs) h)
  | inr h ↦ rw h (FoundIn-shifted needle c cs (find_in needle cs) h (find_in-FoundIn needle cs))
]

module _ (needle text : Text) (start : ℕ) where
  found_behind :
      (o : Option ℕ) → find_in needle (drop start text) ≡ o → FoundIn needle (drop start text) o
  found_behind o e =
      subst (λ found. FoundIn needle (drop start text) found) e
        (find_in-FoundIn needle (drop start text))

  pub find_from-some :
      {i : ℕ} → find_from needle text start ≡ some i → (start ≤ i) × OccursAt needle text i
  unfolding find_from
  find_from-some {i} h = elim (Option-cases (find_in needle (drop start text))) [
    | inl e ↦ absurd (cc)
    | inr (k, e) ↦
        let (at, first) = found_behind (some k) e in
        let place : start + k ≡ i = some-injective _ _ (ap (shifted start) (sym e) ∙ h) in
        (omega arith, (at.0, sym (drop-drop k start i text place) ∙ at.1))
  ]

  -- The search finds the first of the places from `start` on.
  pub find_from-first :
      (j : ℕ)
      → start ≤ j
      → OccursAt needle text j
      → (i : ℕ) × (find_from needle text start ≡ some i) × (i ≤ j)
  unfolding find_from
  find_from-first j le at =
      let held : OccursAt needle (drop start text) (j - start) =
        (at.0, drop-drop (j - start) start j text (omega arith) ∙ at.1) in
      elim (Option-cases (find_in needle (drop start text))) [
        | inl e ↦ absurd (found_behind none e (j - start) held)
        | inr (k, e) ↦
            let first = found_behind (some k) e in
            (start + k, ap (shifted start) e, omega (arith, first.1 (j - start) held))
      ]

within_place :
    (needle : Text) (c : ℕ) (cs : Text) (j : ℕ)
    → (Occurs needle cs → is_within needle cs ≡ true)
    → OccursAt needle (c ∷ cs) j
    → (starts_with (c ∷ cs) needle || is_within needle cs) ≡ true
within_place needle c cs zero rest at = rw ((starts_with-append (c ∷ cs) needle).1 at) refl
within_place needle c cs (suc k) rest at =
    let behind = rest (k, at) in
    elim (Bool-cases (starts_with (c ∷ cs) needle)) [ inl h ↦ rw h refl | inr h ↦ rw h behind ]

-- `needle in text`
pub is_within-Occurs : (needle text : Text) → (is_within needle text ≡ true) ↔ Occurs needle text
unfolding is_within
is_within-Occurs needle [] =
    let (forth, back) = starts_with-append [] needle in
    (λ h. (0, forth h), λ (i, at). back (empty_place needle i at))
is_within-Occurs needle (c ∷ cs) =
    let (forth, back) = is_within-Occurs needle cs in
    (
      λ h. elim (Bool-cases (starts_with (c ∷ cs) needle)) [
        | inl here ↦ (0, (starts_with-append (c ∷ cs) needle).0 here)
        | inr later ↦
            let (i, at) = forth (subst (λ b. (b || is_within needle cs) ≡ true) later h) in
            (suc i, at)
      ],
      λ (i, at). within_place needle c cs i back at,
    )
