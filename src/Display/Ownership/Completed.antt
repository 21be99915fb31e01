-- ===== src/Display/Ownership/Completed.antt =====
-- What `complete` of `OwnershipModel` (m9-2-display-contract-test.py) does in a valid state.
use micro_nux.Base.{
  raise, ◌⊎◌, ℕ, ◌&&◌, ◌==◌, Bool-cases, inl, inr, ◌+◌, ◌≤◌, ◌≡◌, ◌≢◌, refl, Bool, true, false,
  Option, none, some, ok, arith, subst, ◌∙◌,
}
use micro_nux.Display.Ownership.{
  queued_front_alias, queued_eq, checked, take_queued, same_roles, OwnershipModel, complete,
}
use micro_nux.Display.Ownership.Valid.{
  IsValid, QueuedApart, Returns, Stuck, active-Clear, assert_valid-cases, checked-ok,
}

same_roles_refl :
    (s : OwnershipModel) (attempts failures generation : ℕ)
    → same_roles
        (record s { rearm_attempts = attempts; rearm_failures = failures; generation = generation })
        s
      ≡ true
unfolding same_roles
same_roles_refl s attempts failures generation = equal s.queued
  where
    equal : (q : Option ℕ) → (s.front == s.front && s.render == s.render && queued_eq q q) ≡ true
    equal none = ground arith
    equal (some role) = ground arith

counted-IsValid :
    (s : OwnershipModel) (attempts failures generation : ℕ)
    → IsValid s
    → failures ≤ attempts
    → attempts ≤ generation + failures
    → IsValid
        (record s { rearm_attempts = attempts; rearm_failures = failures; generation = generation })
counted-IsValid s attempts failures generation v few enough = record {
  front_lt = v.front_lt;
  render_lt = v.render_lt;
  apart = v.apart;
  queue = moved s.queued v.queue;
  failures = few;
  attempts = enough;
}
  where
    moved :
        (q : Option ℕ)
        → QueuedApart s q
        → QueuedApart
            (record s {
              rearm_attempts = attempts;
              rearm_failures = failures;
              generation = generation;
            })
            q
    moved none h = h
    moved (some role) h = h

pub take_queued-IsValid :
    (s : OwnershipModel) (q : Option ℕ)
    → IsValid s
    → s.queued ≡ q
    → IsValid (take_queued (record s { rearm_attempts = s.rearm_attempts + 1 }) q)
unfolding take_queued
take_queued-IsValid s none v e =
    counted-IsValid s (s.rearm_attempts + 1) s.rearm_failures (s.generation + 1) v
      (omega (arith, v.failures)) (omega (arith, v.attempts))
take_queued-IsValid s (some role) v e =
    let (lt, apart, more) = subst (λ o. QueuedApart s o) e v.queue in
    record {
      front_lt = lt;
      render_lt = v.render_lt;
      apart = λ on. (apart on).1;
      queue = omega (arith, more);
      failures = omega (arith, v.failures);
      attempts = omega (arith, v.attempts);
    }

pub take_queued-empties :
    (s : OwnershipModel) (q : Option ℕ) → s.queued ≡ q → (take_queued s q).queued ≡ none
unfolding take_queued
take_queued-empties s none e = e
take_queued-empties s (some role) e = refl

-- The states after `complete`: of a failed re-arm, of a faulted model, and of the rest.
abbrev pub after_failure : OwnershipModel → OwnershipModel
after_failure s = record s {
  rearm_attempts = s.rearm_attempts + 1;
  rearm_failures = s.rearm_failures + 1;
}

abbrev pub after_fault : OwnershipModel → OwnershipModel
after_fault s = record s { rearm_attempts = s.rearm_attempts + 1; generation = s.generation + 1 }

abbrev pub after_flip : OwnershipModel → OwnershipModel
after_flip s = take_queued (record s { rearm_attempts = s.rearm_attempts + 1 }) s.queued

pub after_failure-IsValid : (s : OwnershipModel) → IsValid s → IsValid (after_failure s)
after_failure-IsValid s v =
    counted-IsValid s (s.rearm_attempts + 1) (s.rearm_failures + 1) s.generation v
      (omega (arith, v.failures)) (omega (arith, v.attempts))

after_fault-IsValid : (s : OwnershipModel) → IsValid s → IsValid (after_fault s)
after_fault-IsValid s v =
    counted-IsValid s (s.rearm_attempts + 1) s.rearm_failures (s.generation + 1) v
      (omega (arith, v.failures)) (omega (arith, v.attempts))

-- A completion that keeps the roles ends with the check.
pub complete_failed : (s : OwnershipModel) → complete s false ≡ checked (after_failure s)
unfolding complete
complete_failed s =
    let same = same_roles_refl s (s.rearm_attempts + 1) (s.rearm_failures + 1) s.generation in
    rw same refl

complete_faulted :
    (s : OwnershipModel) → s.faulted ≡ true → complete s true ≡ checked (after_fault s)
unfolding complete
complete_faulted s bad =
    let kept = same_roles_refl s (s.rearm_attempts + 1) s.rearm_failures (s.generation + 1) in
    ground (arith, bad, kept)

pub complete_flipped :
    (s : OwnershipModel) → IsValid s → s.faulted ≡ false → complete s true ≡ ok (after_flip s)
unfolding complete
complete_flipped s v good =
    let tried = record s { rearm_attempts = s.rearm_attempts + 1 } in
    let same : complete s true ≡ checked (after_flip s) = ground (arith, good) in
    let empty = take_queued-empties tried s.queued refl in
    let clear : (after_flip s).queued ≢ some (after_flip s).front = λ h. cc in
    same ∙ checked-ok _ (take_queued-IsValid s s.queued v refl) clear

-- What is checked returns, or is refused where the model is stuck.
checked-cases :
    (s : OwnershipModel)
    → IsValid s
    → (Returns (checked s) × (Stuck s → ⊥)) ⊎ (Stuck s × (checked s ≡ raise queued_front_alias))
checked-cases s v = elim (assert_valid-cases s v) [
  | inl (e, free) ↦ inl ((s, rw e refl, v), free)
  | inr (stuck, e) ↦ inr (stuck, rw e refl)
]

-- The completions that `complete` refuses: a failed one or one of a faulted model, where it is stuck.
abbrev pub Refused : OwnershipModel → Bool → Type 0
Refused s rearm_success = Stuck s × ((rearm_success ≡ false) ⊎ (s.faulted ≡ true))

-- Each completion is refused, or returns a valid state.
abbrev pub Completes : OwnershipModel → Bool → Type 0
Completes s rearm_success =
    (Returns (complete s rearm_success) × (Refused s rearm_success → ⊥))
    ⊎ (Refused s rearm_success × (complete s rearm_success ≡ raise queued_front_alias))

pub complete-Completes :
    (s : OwnershipModel) (rearm_success : Bool) → IsValid s → Completes s rearm_success
complete-Completes s false v = elim (checked-cases (after_failure s) (after_failure-IsValid s v)) [
  | inl ((t, e, valid), free) ↦ inl ((t, complete_failed s ∙ e, valid), λ (stuck, why). free stuck)
  | inr (stuck, e) ↦ inr ((stuck, inl refl), complete_failed s ∙ e)
]
complete-Completes s true v = elim (Bool-cases s.faulted) [
  | inl bad ↦ elim (checked-cases (after_fault s) (after_fault-IsValid s v)) [
    | inl ((t, e, valid), free) ↦
        inl ((t, complete_faulted s bad ∙ e, valid), λ (stuck, why). free stuck)
    | inr (stuck, e) ↦ inr ((stuck, inr bad), complete_faulted s bad ∙ e)
  ]
  | inr good ↦ inl (
    (after_flip s, complete_flipped s v good, take_queued-IsValid s s.queued v refl),
    λ (stuck, why). not_refused good why,
  )
]
  where
    not_refused : s.faulted ≡ false → (true ≡ false) ⊎ (s.faulted ≡ true) → ⊥
    not_refused good (inl e) = cc
    not_refused good (inr bad) = cc

-- A failed completion of an active model returns.
pub complete_failed_active :
    (s : OwnershipModel) → IsValid s → s.active ≡ true → complete s false ≡ ok (after_failure s)
complete_failed_active s v on =
    complete_failed s
    ∙ checked-ok _ (after_failure-IsValid s v) (active-Clear s s.queued on v.queue)
