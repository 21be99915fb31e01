-- ===== src/Tests/Display.antt =====
-- The runs of `test_ownership` (m9-2-display-contract-test.py), and a run for each theorem.
use micro_nux.Base.{
  raise, ℕ, ◌≡◌, true, false, Option, none, some, List, [], ◌∷◌, Result, ok, refl, ◌>>=◌,
}
use mathlib.Core.Option
use micro_nux.Display.Ownership.{
  Assertion, OwnershipModel, queued_front_alias, assert_valid, complete, new_model, next_index,
  queue_active, queue_render, same_roles, start, take_queued,
}
use micro_nux.Display.Ownership.Valid.{IsValid}
use micro_nux.Display.Ownership.Reachable.{Step, Reach, Progress, Reach-IsValid, Reach-Progress}
use micro_nux.Display.Ownership.Mailbox.{
  Event, play-Mailbox, play, present, vsync, deliver_all, new_mail,
}

abbrev roles : OwnershipModel → ℕ × Option ℕ × ℕ
roles s = (s.front, s.queued, s.render)

abbrev shown_roles : Result Assertion OwnershipModel → Result Assertion (ℕ × Option ℕ × ℕ)
shown_roles r = r >>= (λ s. ok (roles s))

normal : shown_roles (queue_render (new_model true) >>= (λ s. complete s true)) ≡ ok (1, none, 2)
unfolding queue_render complete queue_active next_index assert_valid same_roles take_queued
normal = refl

replacement :
    shown_roles (queue_render (new_model true) >>= queue_render >>= (λ s. complete s true))
    ≡ ok (2, none, 1)
unfolding queue_render complete queue_active next_index assert_valid same_roles take_queued
replacement = refl

failed : shown_roles (queue_render (new_model true) >>= (λ s. complete s false)) ≡ ok (0, some 1, 2)
unfolding queue_render complete queue_active next_index assert_valid same_roles take_queued
failed = refl

startup : shown_roles (queue_render (new_model false) >>= start) ≡ ok (1, none, 0)
unfolding queue_render start next_index assert_valid
startup = refl

contained :
    shown_roles (
      queue_render (new_model true)
      >>= (λ s. queue_render (record s { faulted = true }))
      >>= (λ s. complete s true))
    ≡ ok (0, some 1, 2)
unfolding queue_render complete queue_active next_index assert_valid same_roles take_queued
contained = refl

abbrev startup_state : OwnershipModel
startup_state = record (new_model false) { queued = some 1; requests = 1 }

-- A completion before the start shows the buffer that is still drawn to, and the next request queues it again.
abbrev aliased_state : OwnershipModel
aliased_state = record (new_model false) {
  front = 1;
  requests = 1;
  completions = 1;
  rearm_attempts = 1;
  generation = 1;
}

abbrev stuck_state : OwnershipModel
stuck_state = record aliased_state { queued = some 1; requests = 2 }

queued_at_startup : queue_render (new_model false) ≡ ok startup_state
unfolding queue_render
queued_at_startup = refl

completed_at_startup : complete startup_state true ≡ ok aliased_state
unfolding complete assert_valid take_queued
completed_at_startup = refl

queued_again : queue_render aliased_state ≡ ok stuck_state
unfolding queue_render
queued_again = refl

-- What was queued is in front: a failed completion then raises.
refused : complete stuck_state false ≡ raise queued_front_alias
unfolding complete assert_valid same_roles
refused = refl

abbrev run : Reach (new_model false) stuck_state
run =
    Reach.next
      (Reach.next (Reach.next Reach.here (Step.queues queued_at_startup))
        (Step.completes true completed_at_startup))
      (Step.queues queued_again)

Reach-IsValid_example : IsValid stuck_state
Reach-IsValid_example = Reach-IsValid run

Reach-Progress_example : Progress stuck_state
Reach-Progress_example = Reach-Progress run

abbrev frames : List (Event ℕ)
frames = present 7 ∷ present 8 ∷ vsync true ∷ present 9 ∷ vsync false ∷ []

play-Mailbox_example :
    (t : OwnershipModel) × (after : ℕ → ℕ) × (play frames (new_model true) (λ i. i) ≡ ok (t, after))
    × (after t.front ≡ (deliver_all frames (new_mail (λ i. i))).shown)
    × (Option.map after t.queued ≡ (deliver_all frames (new_mail (λ i. i))).waiting)
play-Mailbox_example = play-Mailbox frames (λ i. i)
