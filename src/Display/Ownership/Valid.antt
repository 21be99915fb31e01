-- ===== src/Display/Ownership/Valid.antt =====
-- The invariant of `OwnershipModel` (m9-2-display-contract-test.py), and the calls that prepare a frame.
use micro_nux.Base.{
  ap, raise, ◌⊎◌, ℕ, ltb, not, ◌&&◌, ◌||◌, ◌==◌, ◌-◌, Bool-cases, inl, inr, ◌+◌, ◌<◌, ◌≤◌, ◌≡◌, ◌≢◌,
  refl, Bool, true, false, Option, none, some, Result, ok, arith, subst, ◌∙◌, if◌then◌else◌,
}
use micro_nux.Display.Ownership.{
  queued_front_alias, check_queued, checked, next_index, queue_active, is_queued, or_front,
  OwnershipModel, Assertion, new_model, assert_valid, queue_render, start,
}

-- The place of the queued buffer.
abbrev pub QueuedApart : OwnershipModel → Option ℕ → Type 0
QueuedApart s none = s.completions ≤ s.requests
QueuedApart s (some role) =
    (role < 3)
    × (s.active ≡ true → (role ≢ s.front) × (role ≢ s.render))
    × (s.completions < s.requests)

-- Front, render and a queued buffer are of the three, and different while the model is active.
pub record IsValid (s : OwnershipModel) : Type 0 where
  pub front_lt : s.front < 3
  pub render_lt : s.render < 3
  pub apart : s.active ≡ true → s.front ≢ s.render
  pub queue : QueuedApart s s.queued
  pub failures : s.rearm_failures ≤ s.rearm_attempts
  pub attempts : s.rearm_attempts ≤ s.generation + s.rearm_failures

pub new_model-IsValid : (is_active : Bool) → IsValid (new_model is_active)
new_model-IsValid is_active = record {
  front_lt = omega arith;
  render_lt = omega arith;
  apart = λ on e. omega arith;
  queue = omega arith;
  failures = omega arith;
  attempts = omega arith;
}

-- The state in which `assert_valid` refuses a valid model: inactive, with the shown buffer queued.
abbrev pub Stuck : OwnershipModel → Type 0
Stuck s = (s.active ≡ false) × (s.queued ≡ some s.front)

check_queued-cases :
    (s : OwnershipModel) (q : Option ℕ)
    → QueuedApart s q
    → ((check_queued s q ≡ ok tt) × ((s.active ≡ false) × (q ≡ some s.front) → ⊥))
      ⊎ ((s.active ≡ false) × ((q ≡ some s.front) × (check_queued s q ≡ raise queued_front_alias)))
unfolding check_queued
check_queued-cases s none h = inl (refl, λ (off, e). cc)
check_queued-cases s (some role) (lt, apart, more) = elim (Bool-cases s.active) [
  | inl on ↦
      let (not_front, not_render) = apart on in
      inl (ground (arith, lt, not_front, not_render), λ (off, e). cc)
  | inr off ↦ elim (Bool-cases (role == s.front)) [
    | inl same ↦
        let equal : role ≡ s.front = ground (arith, same) in
        inr (off, (ap some equal, ground (arith, same)))
    | inr differs ↦ inl (
      ground (arith, lt, off, differs),
      λ (_, e). let same : role ≡ s.front = cc in ground (arith, differs, same),
    )
  ]
]

-- `assert_valid` of a valid model is the check on the queue.
assert_valid_lem : (s : OwnershipModel) → IsValid s → assert_valid s ≡ check_queued s s.queued
unfolding assert_valid
assert_valid_lem s v =
    let ends : (not (ltb s.front 3) || not (ltb s.render 3)) ≡ false =
      ground (arith, v.front_lt, v.render_lt) in
    let apart : (s.active && s.front == s.render) ≡ false = elim (Bool-cases s.active) [
      | inl on ↦ let differ = v.apart on in ground (arith, on, differ)
      | inr off ↦ ground (arith, off)
    ] in
    rw (ends, apart) refl

pub assert_valid-cases :
    (s : OwnershipModel)
    → IsValid s
    → ((assert_valid s ≡ ok tt) × (Stuck s → ⊥))
      ⊎ (Stuck s × (assert_valid s ≡ raise queued_front_alias))
assert_valid-cases s v = elim (check_queued-cases s s.queued v.queue) [
  | inl (e, free) ↦ inl (assert_valid_lem s v ∙ e, free)
  | inr (off, (front, e)) ↦ inr ((off, front), assert_valid_lem s v ∙ e)
]

pub assert_valid-ok :
    (s : OwnershipModel) → IsValid s → s.queued ≢ some s.front → assert_valid s ≡ ok tt
assert_valid-ok s v clear = elim (assert_valid-cases s v) [
  | inl (e, free) ↦ e
  | inr ((off, front), e) ↦ absurd (clear front)
]

-- A method returns a valid state, and raises nothing.
abbrev pub Returns : Result Assertion OwnershipModel → Type 0
Returns r = (t : OwnershipModel) × (r ≡ ok t) × IsValid t

pub checked-ok : (s : OwnershipModel) → IsValid s → s.queued ≢ some s.front → checked s ≡ ok s
checked-ok s v clear = rw (assert_valid-ok s v clear) refl

checked_lem : (s : OwnershipModel) → IsValid s → s.queued ≢ some s.front → Returns (checked s)
checked_lem s v clear = (s, checked-ok s v clear, v)

-- An active model's queue is clear of its front.
pub active-Clear :
    (s : OwnershipModel) (q : Option ℕ) → s.active ≡ true → QueuedApart s q → q ≢ some s.front
active-Clear s none on h e = cc
active-Clear s (some role) on h e = let same : role ≡ s.front = cc in (h.1 on).0 same

-- The third buffer of three.
third :
    (f r : ℕ)
    → f < 3
    → r < 3
    → f ≢ r
    → next_index (λ index. not (index == f) && not (index == r)) ≡ ok (3 - (f + r))
unfolding next_index
third f r hf hr apart = ground arith

other :
    (f : ℕ) → f < 3 → (k : ℕ) × (next_index (λ index. not (index == f)) ≡ ok k) × (k < 3) × (k ≢ f)
unfolding next_index
other f hf = elim (Bool-cases (0 == f)) [
  | inl e ↦ (1, ground arith, omega arith, λ h. ground arith)
  | inr e ↦ (0, ground arith, omega arith, λ h. ground arith)
]

requests_le : (s : OwnershipModel) (q : Option ℕ) → QueuedApart s q → s.completions ≤ s.requests
requests_le s none h = h
requests_le s (some role) h = omega (arith, h.2)

-- The state after an active model's `queue_render`: the third buffer is drawn next.
abbrev pub requeued : OwnershipModel → OwnershipModel
requeued s = record s {
  queued = some s.render;
  requests = s.requests + 1;
  render = 3 - (s.front + s.render);
}

pub requeued-IsValid : (s : OwnershipModel) → IsValid s → s.active ≡ true → IsValid (requeued s)
requeued-IsValid s v on =
    let differ = v.apart on in
    record {
      front_lt = v.front_lt;
      render_lt = omega (arith, v.front_lt, v.render_lt);
      apart = λ _ e. omega (arith, v.front_lt, v.render_lt, differ);
      queue = (
        v.render_lt,
        λ _. (λ e. omega (arith, differ), λ e. omega (arith, v.front_lt, v.render_lt, differ)),
        omega (arith, requests_le s s.queued v.queue),
      );
      failures = v.failures;
      attempts = v.attempts;
    }

queue_active_lem :
    (s : OwnershipModel) → IsValid s → s.active ≡ true → queue_active s ≡ ok (requeued s)
unfolding queue_active
queue_active_lem s v on =
    let valid = requeued-IsValid s v on in
    rw (third s.front s.render v.front_lt v.render_lt (v.apart on))
      (checked-ok _ valid (active-Clear (requeued s) (some s.render) on valid.queue))

pub queue_render_active :
    (s : OwnershipModel)
    → IsValid s
    → s.active ≡ true
    → s.faulted ≡ false
    → queue_render s ≡ ok (requeued s)
unfolding queue_render
queue_render_active s v on good =
    let same : queue_render s ≡ queue_active s = ground arith in same ∙ queue_active_lem s v on

-- An inactive model queues the buffer that it draws to.
queue_inactive-IsValid :
    (s : OwnershipModel) (q : Option ℕ)
    → IsValid s
    → s.queued ≡ q
    → s.active ≡ false
    → IsValid (record s {
      queued = some s.render;
      requests = if is_queued q s.render then s.requests else s.requests + 1;
    })
queue_inactive-IsValid s q v e idle = record {
  front_lt = v.front_lt;
  render_lt = v.render_lt;
  apart = λ on. cc;
  queue = (v.render_lt, λ on. cc, counted q (subst (λ o. QueuedApart s o) e v.queue));
  failures = v.failures;
  attempts = v.attempts;
}
  where
    counted :
        (o : Option ℕ)
        → QueuedApart s o
        → s.completions < (if is_queued o s.render then s.requests else s.requests + 1)
    counted none h = omega arith
    counted (some role) h = ground (arith, h.2)

pub queue_render-Returns : (s : OwnershipModel) → IsValid s → Returns (queue_render s)
unfolding queue_render
queue_render-Returns s v = elim (Bool-cases s.faulted) [
  | inl bad ↦ (s, ground arith, v)
  | inr good ↦ elim (Bool-cases s.active) [
    | inl on ↦ (requeued s, queue_render_active s v on good, requeued-IsValid s v on)
    | inr off ↦ (_, ground arith, queue_inactive-IsValid s s.queued v refl off)
  ]
]

started :
    (s : OwnershipModel) (front : ℕ)
    → front < 3
    → IsValid s
    → s.completions ≤ s.requests
    → (render : ℕ) → render < 3
    → render ≢ front
    → IsValid (record s {
      front = front;
      queued = none;
      render = render;
      active = true;
      generation = s.generation + 1;
    })
started s front lt v le render rlt apart = record {
  front_lt = lt;
  render_lt = rlt;
  apart = λ _ e. omega (arith, apart);
  queue = le;
  failures = v.failures;
  attempts = omega (arith, v.attempts);
}

front_lt_of :
    (s : OwnershipModel) (q : Option ℕ) → IsValid s → QueuedApart s q → or_front q s.front < 3
front_lt_of s none v h = v.front_lt
front_lt_of s (some role) v h = h.0

pub start-Returns : (s : OwnershipModel) → IsValid s → s.active ≡ false → Returns (start s)
unfolding start
start-Returns s v off =
    let front = or_front s.queued s.front in
    let lt = front_lt_of s s.queued v v.queue in
    let le = requests_le s s.queued v.queue in
    elim (Bool-cases (s.render == front)) [
      | inl e ↦
          let (k, found, klt, apart) = other front lt in
          let (t, done, valid) = checked_lem _ (started s front lt v le k klt apart) (λ h. cc) in
          let same : start s
              ≡ checked (record s {
                front = front;
                queued = none;
                render = k;
                active = true;
                generation = s.generation + 1;
              }) =
            ground (arith, off, e, found) in
          (t, same ∙ done, valid)
      | inr e ↦
          let apart : s.render ≢ front = λ h. ground arith in
          let (t, done, valid) =
            checked_lem _ (started s front lt v le s.render v.render_lt apart) (λ h. cc) in
          let same : start s
              ≡ checked (record s {
                front = front;
                queued = none;
                render = s.render;
                active = true;
                generation = s.generation + 1;
              }) =
            ground (arith, off, e) in
          (t, same ∙ done, valid)
    ]

pub faulted-IsValid : (s : OwnershipModel) → IsValid s → IsValid (record s { faulted = true })
faulted-IsValid s v = record {
  front_lt = v.front_lt;
  render_lt = v.render_lt;
  apart = v.apart;
  queue = kept s.queued v.queue;
  failures = v.failures;
  attempts = v.attempts;
}
  where
    kept : (q : Option ℕ) → QueuedApart s q → QueuedApart (record s { faulted = true }) q
    kept none h = h
    kept (some role) h = h
