-- ===== src/Hardware/Contract/Roles.antt =====
-- The roles of the three buffers in a sample (m9-hardware-test.py, the checks of front, queued, back).
use micro_nux.Base.{
  ℕ, suc, zero, ◌<◌, ◌≡◌, refl, Bool, false, not, ◌&&◌, ◌||◌, ℤ, pos, negsuc, ◌↔◌, ◌≢◌, ◌⊎◌, inl,
  inr, arith, subst,
}
use micro_nux.Hardware.Samples.{Sample, front, queued, back}
use micro_nux.Hardware.Contract.{in_range3, role_eq, bad_front_back, bad_queued}

-- The queued buffer is none, or the third of three.
abbrev pub QueuedRole : ℤ → ℕ → ℕ → Type 0
QueuedRole q f b =
    (q ≡ negsuc 0)
    ⊎ ((waiting : ℕ) × (q ≡ pos waiting) × (waiting < 3) × (waiting ≢ f) × (waiting ≢ b))

-- Two different buffers of three are at the front and at the back, and the queued one, if there is
-- one, is the third.
abbrev pub ValidRoles : Sample → Type 0
ValidRoles v =
    (f b : ℕ) × (v.role front ≡ pos f)
    × (v.role back ≡ pos b)
    × (f < 3)
    × (b < 3)
    × (f ≢ b)
    × QueuedRole (v.role queued) f b

abbrev front_back : ℤ → ℤ → Bool
front_back f b = not (in_range3 f) || not (in_range3 b) || role_eq f b

abbrev queue : ℤ → ℤ → ℤ → Bool
queue f q b =
    not (role_eq q (negsuc 0)) && (not (in_range3 q) || role_eq f q || role_eq f b || role_eq q b)

front_back-pos :
    (f b : ℤ)
    → front_back f b ≡ false
    → (m n : ℕ) × (f ≡ pos m) × (b ≡ pos n) × (m < 3) × (n < 3) × (m ≢ n)
front_back-pos (pos m) (pos n) h = (m, n, refl, refl, ground arith, ground arith, λ e. ground arith)
front_back-pos (pos m) (negsuc n) h = absurd (ground arith)
front_back-pos (negsuc m) b h = cc

pos-front_back : (m n : ℕ) → m < 3 → n < 3 → m ≢ n → front_back (pos m) (pos n) ≡ false
pos-front_back m n hm hn apart = ground arith

queue-QueuedRole : (m n : ℕ) (q : ℤ) → queue (pos m) q (pos n) ≡ false → QueuedRole q m n
queue-QueuedRole m n (pos k) h = inr (k, refl, ground arith, λ e. ground arith, λ e. ground arith)
queue-QueuedRole m n (negsuc zero) h = inl refl
queue-QueuedRole m n (negsuc (suc k)) h = absurd (ground arith)

QueuedRole-queue : (m n : ℕ) (q : ℤ) → m ≢ n → QueuedRole q m n → queue (pos m) q (pos n) ≡ false
QueuedRole-queue m n q apart (inl e) = rw e refl
QueuedRole-queue m n q apart (inr (k, e, lt, hm, hn)) = rw e (ground arith)

pub bad-ValidRoles :
    (v : Sample) → ((bad_front_back v ≡ false) × (bad_queued v ≡ false)) ↔ ValidRoles v
unfolding bad_front_back bad_queued
bad-ValidRoles v = (
  λ (ends, middle).
      let (m, n, fe, be, fl, bl, apart) = front_back-pos (v.role front) (v.role back) ends in
      let at_ends = subst (λ z. queue z (v.role queued) (v.role back) ≡ false) fe middle in
      let both = subst (λ z. queue (pos m) (v.role queued) z ≡ false) be at_ends in
      (m, n, fe, be, fl, bl, apart, queue-QueuedRole m n (v.role queued) both),
  λ (m, n, fe, be, fl, bl, apart, q). (
    rw (fe, be) (pos-front_back m n fl bl apart),
    rw (fe, be) (QueuedRole-queue m n (v.role queued) apart q),
  ),
)
