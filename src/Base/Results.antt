-- ===== src/Base/Results.antt =====
-- Python exceptions as values: a call returns, or raises an error.
use mathlib.Core.Path.{◌≡◌, refl}
use mathlib.Core.Logic.{◌⊎◌, ◌↔◌, inl, inr}
use mathlib.Core.Bool.{Bool, true, false, not}
use Prim.Native.Nat.{ℕ}
use native.Mathlib.Omega.{arith}
use micro_nux.Base.Tests.{◌==◌}
use mathlib.Core.Option.{Option, none, some}

pub data Result {ℓ κ} (E : Type ℓ) (A : Type κ) : Type (ℓ ⊔ κ) where
  ok : A → Result E A
  raise : E → Result E A

module _ {ℓ} {E : Type ℓ} where
  -- `if test: raise error`
  abbrev pub raise_if : Bool → E → Result E (Unit {0})
  raise_if false error = ok tt
  raise_if true error = raise error

  module _ {κ} {A : Type κ} where
    -- A library call that raises `error` where it has no value.
    abbrev pub or_raise : Option A → E → Result E A
    or_raise (some value) error = ok value
    or_raise none error = raise error

    pub Result-cases : (r : Result E A) → ((a : A) × (r ≡ ok a)) ⊎ ((e : E) × (r ≡ raise e))
    Result-cases (ok value) = inl (value, refl)
    Result-cases (raise error) = inr (error, refl)

    infixl 5 ◌>>◌
    abbrev pub ◌>>◌ : Result E (Unit {0}) → Result E A → Result E A
    ok _ >> next = next
    raise error >> next = raise error

    module _ {μ} {B : Type μ} where
      infixl 5 ◌>>=◌
      abbrev pub ◌>>=◌ : Result E A → (A → Result E B) → Result E B
      raise error >>= next = raise error
      ok value >>= next = next value

  pub then_ok : (a b : Result E (Unit {0})) → ((a >> b) ≡ ok tt) ↔ ((a ≡ ok tt) × (b ≡ ok tt))
  then_ok (ok u) b = (λ h. (refl, h), λ h. h.1)
  then_ok (raise e) b = (λ h. cc, λ h. cc)

  pub raise_if-false : (b : Bool) (e : E) → (raise_if b e ≡ ok tt) ↔ (b ≡ false)
  raise_if-false true e = (λ h. cc, λ h. cc)
  raise_if-false false e = (λ h. refl, λ h. refl)

  -- `if a != b: raise error`
  pub raise_if-equal : (a b : ℕ) (e : E) → raise_if (not (a == b)) e ≡ ok tt → a ≡ b
  raise_if-equal a b e h = let same = (raise_if-false (not (a == b)) e).0 h in ground (arith, same)

  -- The specifications of two steps, one after the other.
  pub both {ℓ' κ μ} :
      {A : Type ℓ'} {x : A} {P : Type κ} {Q : Type μ} {a : Result E (Unit {0})} {b : Result E A}
      → (a ≡ ok tt) ↔ P
      → (b ≡ ok x) ↔ Q
      → ((a >> b) ≡ ok x) ↔ (P × Q)
  both {a = ok u} (p, p') (q, q') = (λ h. (p refl, q h), λ h. q' h.1)
  both {a = raise e} (p, p') (q, q') = (λ h. cc, λ h. absurd (let no = p' h.0 in cc))

  pub same_value {ℓ'} : {A : Type ℓ'} {x y : A} → ◌≡◌ {A = Result E A} (ok x) (ok y) → x ≡ y
  same_value h = cc

  -- A step whose value the next one takes.
  pub chained {ℓ' κ' κ μ} :
      {A : Type ℓ'} {B : Type κ'} {y : B} {P : A → Type κ} {Q : A → Type μ} {r : Result E A}
      {next : A → Result E B}
      → ((x : A) → (r ≡ ok x) ↔ P x)
      → ((x : A) → (next x ≡ ok y) ↔ Q x)
      → ((r >>= next) ≡ ok y) ↔ ((x : A) × P x × Q x)
  chained {r = ok a} p q = (
    λ h. (a, (p a).0 refl, (q a).0 h),
    λ (x, px, qx). let same : a ≡ x = same_value ((p x).1 px) in rw same ((q x).1 qx),
  )
  chained {r = raise e} p q = (λ h. cc, λ (x, px, qx). absurd (let no = (p x).1 px in cc))

pub through {ℓ κ μ} : {P : Type ℓ} {Q : Type κ} {R : Type μ} → P ↔ Q → Q ↔ R → P ↔ R
through (p, p') (q, q') = (λ h. q (p h), λ h. p' (q' h))
