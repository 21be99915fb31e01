-- ===== src/Display/Ownership.antt =====
-- `OwnershipModel` of m9-2-display-contract-test.py: which of three buffers is shown, drawn and queued.
pub mod Valid
pub mod Completed
pub mod Reachable
pub mod Mailbox
use micro_nux.Base.{
  ℕ, zero, suc, ◌+◌, Bool, true, false, not, ◌&&◌, ◌||◌, Option, none, some, ltb, ◌==◌, Result, ok,
  raise, ◌>>=◌, ◌>>◌, raise_if, if◌then◌else◌,
}

pub record OwnershipModel : Type 0 where
  pub front : ℕ
  pub render : ℕ
  pub queued : Option ℕ
  pub active : Bool
  pub requests : ℕ
  pub completions : ℕ
  pub rearm_attempts : ℕ
  pub rearm_failures : ℕ
  pub generation : ℕ
  pub faulted : Bool

-- `OwnershipModel(active=...)`
abbrev pub new_model : Bool → OwnershipModel
new_model is_active = record {
  front = 0;
  render = 1;
  queued = none;
  active = is_active;
  requests = 0;
  completions = 0;
  rearm_attempts = 0;
  rearm_failures = 0;
  generation = 0;
  faulted = false;
}

-- The `AssertionError`s by message, and the `StopIteration` of `next`.
pub data Assertion : Type 0 where
  role_out_of_range front_render_alias queued_front_alias queued_render_alias : Assertion
  already_active failed_rearm_mutated_roles faulted_rearm_mutated_roles stop_iteration : Assertion

-- `role not in range(3)`
abbrev outside : ℕ → Bool
outside role = not (ltb role 3)

check_queued : OwnershipModel → Option ℕ → Result Assertion (Unit {0})
check_queued s none = ok tt
check_queued s (some role) = do
  raise_if (outside role || role == s.front) queued_front_alias
  raise_if (s.active && role == s.render) queued_render_alias

unfoldable pub assert_valid : OwnershipModel → Result Assertion (Unit {0})
unfolding check_queued
assert_valid s = do
  raise_if (outside s.front || outside s.render) role_out_of_range
  raise_if (s.active && s.front == s.render) front_render_alias
  check_queued s s.queued

-- `next(index for index in range(3) if free(index))`
unfoldable pub next_index : (ℕ → Bool) → Result Assertion ℕ
next_index free =
    if free 0 then ok 0 else if free 1 then ok 1 else if free 2 then ok 2 else raise stop_iteration

-- `self.assert_valid()` as the last statement of a method.
abbrev pub checked : OwnershipModel → Result Assertion OwnershipModel
checked s = assert_valid s >> ok s

-- `self.queued == role`
abbrev pub is_queued : Option ℕ → ℕ → Bool
is_queued none role = false
is_queued (some other) role = other == role

unfoldable pub queue_active : OwnershipModel → Result Assertion OwnershipModel
queue_active s = do
  render ← next_index (λ index. not (index == s.front) && not (index == s.render))
  checked (record s { queued = some s.render; requests = s.requests + 1; render = render })

unfoldable pub queue_render : OwnershipModel → Result Assertion OwnershipModel
queue_render s =
    if s.faulted
    then ok s
    else if not s.active
    then ok (record s {
      queued = some s.render;
      requests = if is_queued s.queued s.render then s.requests else s.requests + 1;
    })
    else queue_active s

-- `self.queued if self.queued is not None else self.front`
abbrev pub or_front : Option ℕ → ℕ → ℕ
or_front none front = front
or_front (some role) front = role

unfoldable pub start : OwnershipModel → Result Assertion OwnershipModel
start s = do
  raise_if s.active already_active
  let front = or_front s.queued s.front
  render ← if s.render == front then next_index (λ index. not (index == front)) else ok s.render
  checked (record s {
    front = front;
    queued = none;
    render = render;
    active = true;
    generation = s.generation + 1;
  })

abbrev queued_eq : Option ℕ → Option ℕ → Bool
queued_eq none none = true
queued_eq none (some b) = false
queued_eq (some a) none = false
queued_eq (some a) (some b) = a == b

-- `(self.front, self.render, self.queued) == before`
unfoldable pub same_roles : OwnershipModel → OwnershipModel → Bool
same_roles s before =
    s.front == before.front && s.render == before.render && queued_eq s.queued before.queued

-- The end of a completion: the queued buffer, if there is one, is shown.
unfoldable pub take_queued : OwnershipModel → Option ℕ → OwnershipModel
take_queued s none = record s { generation = s.generation + 1 }
take_queued s (some role) = record s {
  front = role;
  queued = none;
  completions = s.completions + 1;
  generation = s.generation + 1;
}

unfoldable pub complete : OwnershipModel → Bool → Result Assertion OwnershipModel
complete s rearm_success =
    let tried = record s { rearm_attempts = s.rearm_attempts + 1 } in
    let failed = record tried { rearm_failures = tried.rearm_failures + 1 } in
    let counted = record tried { generation = tried.generation + 1 } in
    if not rearm_success
    then raise_if (not (same_roles failed s)) failed_rearm_mutated_roles >> checked failed
    else if s.faulted
    then raise_if (not (same_roles counted s)) faulted_rearm_mutated_roles >> checked counted
    else checked (take_queued tried tried.queued)
