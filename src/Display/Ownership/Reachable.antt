-- ===== src/Display/Ownership/Reachable.antt =====
-- The runs of `OwnershipModel` (m9-2-display-contract-test.py), and what holds along each of them.
use micro_nux.Base.{
  ◌⊎◌, inl, inr, Bool-cases, ◌≡◌, Bool, true, false, Result, ok, raise, arith, refl, subst, sym,
  ◌∙◌,
}
use micro_nux.Display.Ownership.{
  Assertion, OwnershipModel, already_active, queued_front_alias, assert_valid, complete, new_model,
  queue_render, start,
}
use micro_nux.Display.Ownership.Valid.{
  IsValid, Returns, Stuck, assert_valid-cases, faulted-IsValid, new_model-IsValid,
  queue_render-Returns, start-Returns,
}
use micro_nux.Display.Ownership.Completed.{Refused, complete-Completes}

-- The method returns.
abbrev pub Proceeds : Result Assertion OwnershipModel → Type 0
Proceeds r = (t : OwnershipModel) × (r ≡ ok t)

-- What `OwnershipModel` promises of each method in a state.
abbrev pub Progress : OwnershipModel → Type 0
Progress s =
    (((assert_valid s ≡ ok tt) × (Stuck s → ⊥))
      ⊎ (Stuck s × (assert_valid s ≡ raise queued_front_alias)))
    × (Proceeds (queue_render s)
        × ((((s.active ≡ true) × (start s ≡ raise already_active))
              ⊎ ((s.active ≡ false) × Proceeds (start s)))
            × ((rearm_success : Bool)
                → (Proceeds (complete s rearm_success) × (Refused s rearm_success → ⊥))
                  ⊎ (Refused s rearm_success
                      × (complete s rearm_success ≡ raise queued_front_alias)))))

-- A call of one of the three methods that returns, or the fault that the tests set from outside.
pub data Step (s t : OwnershipModel) : Type 0 where
  queues : queue_render s ≡ ok t → Step s t
  starts : start s ≡ ok t → Step s t
  completes : (rearm_success : Bool) → complete s rearm_success ≡ ok t → Step s t
  faults : t ≡ record s { faulted = true } → Step s t

pub data Reach (s : OwnershipModel) : OwnershipModel → Type 0 where
  here : Reach s s
  next : {t u : OwnershipModel} → Reach s t → Step t u → Reach s u

abbrev ok_of : OwnershipModel → Result Assertion OwnershipModel
ok_of s = ok s

ok_injective : {a b : OwnershipModel} → ok_of a ≡ ok_of b → a ≡ b
ok_injective h = cc

returned :
    {r : Result Assertion OwnershipModel} {t : OwnershipModel} → Returns r → r ≡ ok t → IsValid t
returned (u, e, valid) e' = subst IsValid (ok_injective {a = u} (sym e ∙ e')) valid

proceeds : {r : Result Assertion OwnershipModel} → Returns r → Proceeds r
proceeds (t, e, valid) = (t, e)

start_active : (s : OwnershipModel) → s.active ≡ true → start s ≡ raise already_active
unfolding start
start_active s on = ground (arith, on)

starts-IsValid :
    {s t : OwnershipModel} → IsValid s → (on : Bool) → s.active ≡ on → start s ≡ ok t → IsValid t
starts-IsValid {s = s} v true on e = ground (arith, start_active s on, e)
starts-IsValid {s = s} v false off e = returned (start-Returns s v off) e

Step-IsValid : {s t : OwnershipModel} → Step s t → IsValid s → IsValid t
Step-IsValid {s = s} (queues e) v = returned (queue_render-Returns s v) e
Step-IsValid {s = s} (starts e) v = starts-IsValid v s.active refl e
Step-IsValid {s = s} (completes b e) v = elim (complete-Completes s b v) [
  | inl (returns, free) ↦ returned returns e
  | inr (refused, raised) ↦ ground (arith, raised, e)
]
Step-IsValid {s = s} (faults e) v = subst IsValid (sym e) (faulted-IsValid s v)

-- In every state that a run of `OwnershipModel` reaches from its initial values (the calls of the three methods
-- that return, in any order, and a fault set from outside at any time): front, render and a queued buffer are
-- of the three buffers, and different from each other while the model is active; the completions are at most
-- as many as the requests, and fewer while a buffer is queued; there are at most as many failures as attempts,
-- and each attempt failed or is a generation.
pub Reach-IsValid :
    {is_active : Bool} {s : OwnershipModel} → Reach (new_model is_active) s → IsValid s
Reach-IsValid {is_active} here = new_model-IsValid is_active
Reach-IsValid (next r step) = Step-IsValid step (Reach-IsValid r)

start-cases :
    (s : OwnershipModel)
    → IsValid s
    → ((s.active ≡ true) × (start s ≡ raise already_active))
      ⊎ ((s.active ≡ false) × Proceeds (start s))
start-cases s v = elim (Bool-cases s.active) [
  | inl on ↦ inl (on, start_active s on)
  | inr off ↦ inr (off, proceeds (start-Returns s v off))
]

complete-cases :
    (s : OwnershipModel) (rearm_success : Bool)
    → IsValid s
    → (Proceeds (complete s rearm_success) × (Refused s rearm_success → ⊥))
      ⊎ (Refused s rearm_success × (complete s rearm_success ≡ raise queued_front_alias))
complete-cases s rearm_success v = elim (complete-Completes s rearm_success v) [
  | inl (returns, free) ↦ inl (proceeds returns, free)
  | inr refused ↦ inr refused
]

-- In a state that a run reaches, call a model stuck that is inactive with its front buffer queued. `assert_valid`
-- passes, unless the model is stuck, where it raises "queued-front-alias"; `queue_render` returns; `start`
-- raises "already-active" while the model is active and returns while it is not; and `complete` returns,
-- unless the model is stuck, and the re-arm failed or the model is faulted, where it raises
-- "queued-front-alias". Nothing else is raised.
pub Reach-Progress :
    {is_active : Bool} {s : OwnershipModel} → Reach (new_model is_active) s → Progress s
Reach-Progress {s = s} r =
    let v = Reach-IsValid r in
    (
      assert_valid-cases s v,
      (
        proceeds (queue_render-Returns s v),
        (start-cases s v, λ rearm_success. complete-cases s rearm_success v),
      ),
    )
