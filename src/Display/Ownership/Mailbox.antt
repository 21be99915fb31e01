-- ===== src/Display/Ownership/Mailbox.antt =====
-- What the three buffers of `OwnershipModel` (m9-2-display-contract-test.py) are for: a mailbox of frames.
use micro_nux.Base.{
  ℕ, ◌+◌, ◌==◌, ◌≡◌, Bool, true, false, Option, none, some, List, [], ◌∷◌, Result, ok, arith, refl,
  ◌∙◌, ◌>>=◌, if◌then◌else◌,
}
use mathlib.Core.Option
use micro_nux.Display.Ownership.{
  Assertion, OwnershipModel, complete, new_model, queue_render, take_queued,
}
use micro_nux.Display.Ownership.Valid.{
  IsValid, requeued, requeued-IsValid, queue_render_active, new_model-IsValid,
}
use micro_nux.Display.Ownership.Completed.{
  after_flip, after_failure, after_failure-IsValid, take_queued-IsValid, take_queued-empties,
  complete_failed_active, complete_flipped,
}

pub data Event {ℓ} (A : Type ℓ) : Type ℓ where
  present : A → Event A
  vsync : Bool → Event A

-- The buffers' contents, by index.
abbrev pub write {ℓ} : {A : Type ℓ} → (ℕ → A) → ℕ → A → (ℕ → A)
write memory role frame = λ index. if index == role then frame else memory index

-- A frame is drawn into the render buffer and queued; a vsync completes with an outcome of the re-arm.
unfoldable pub play {ℓ} :
    {A : Type ℓ}
    → List (Event A)
    → OwnershipModel
    → (ℕ → A)
    → Result Assertion (OwnershipModel × (ℕ → A))
play [] s memory = ok (s, memory)
play (present frame ∷ events) s memory = do
  t ← queue_render s
  play events t (write memory s.render frame)
play (vsync rearm_success ∷ events) s memory = do t ← complete s rearm_success; play events t memory

-- The specification: the frame that is shown, and the latest one that was presented since.
pub record Mail {ℓ} (A : Type ℓ) : Type ℓ where
  pub shown : A
  pub waiting : Option A

abbrev pub latest {ℓ} : {A : Type ℓ} → Option A → A → A
latest none old = old
latest (some frame) old = frame

unfoldable pub deliver {ℓ} : {A : Type ℓ} → Event A → Mail A → Mail A
deliver (present frame) m = record m { waiting = some frame }
deliver (vsync false) m = m
deliver (vsync true) m = record { shown = latest m.waiting m.shown; waiting = none }

unfoldable pub deliver_all {ℓ} : {A : Type ℓ} → List (Event A) → Mail A → Mail A
deliver_all [] m = m
deliver_all (event ∷ events) m = deliver_all events (deliver event m)

abbrev pub new_mail {ℓ} : {A : Type ℓ} → (ℕ → A) → Mail A
new_mail memory = record { shown = memory 0; waiting = none }

pub record Shows {ℓ} {A : Type ℓ} (s : OwnershipModel) (memory : ℕ → A) (m : Mail A) : Type ℓ where
  pub valid : IsValid s
  pub on : s.active ≡ true
  pub good : s.faulted ≡ false
  pub front : memory s.front ≡ m.shown
  pub queue : Option.map memory s.queued ≡ m.waiting

present-Shows {ℓ} :
    {A : Type ℓ} (frame : A) (s : OwnershipModel) (memory : ℕ → A) (m : Mail A)
    → Shows s memory m
    → Shows (requeued s) (write memory s.render frame) (deliver (present frame) m)
unfolding deliver
present-Shows frame s memory m h =
    let differ = h.valid.apart h.on in
    record {
      valid = requeued-IsValid s h.valid h.on;
      on = h.on;
      good = h.good;
      front = ground (arith, differ, h.front);
      queue = ground arith;
    }

-- The fields that `take_queued` keeps, and the frame that it shows.
take_queued_lem {ℓ} :
    {A : Type ℓ} (s : OwnershipModel) (memory : ℕ → A) (q : Option ℕ)
    → ((take_queued s q).active ≡ s.active)
      × ((take_queued s q).faulted ≡ s.faulted)
      × (memory (take_queued s q).front ≡ latest (Option.map memory q) (memory s.front))
unfolding take_queued
take_queued_lem s memory none = (refl, refl, refl)
take_queued_lem s memory (some role) = (refl, refl, refl)

flip-Shows {ℓ} :
    {A : Type ℓ} (s : OwnershipModel) (memory : ℕ → A) (m : Mail A)
    → Shows s memory m
    → Shows (after_flip s) memory (deliver (vsync true) m)
unfolding deliver
flip-Shows s memory m h =
    let tried = record s { rearm_attempts = s.rearm_attempts + 1 } in
    let (on, good, front) = take_queued_lem tried memory s.queued in
    let empty = take_queued-empties tried s.queued refl in
    record {
      valid = take_queued-IsValid s s.queued h.valid refl;
      on = on ∙ h.on;
      good = good ∙ h.good;
      front = rw (front, h.queue, h.front) refl;
      queue = rw empty refl;
    }

failed-Shows {ℓ} :
    {A : Type ℓ} (s : OwnershipModel) (memory : ℕ → A) (m : Mail A)
    → Shows s memory m
    → Shows (after_failure s) memory (deliver (vsync false) m)
unfolding deliver
failed-Shows s memory m h = record {
  valid = after_failure-IsValid s h.valid;
  on = h.on;
  good = h.good;
  front = h.front;
  queue = h.queue;
}

play-deliver_all {ℓ} :
    {A : Type ℓ} (events : List (Event A)) (s : OwnershipModel) (memory : ℕ → A) (m : Mail A)
    → Shows s memory m
    → (t : OwnershipModel) × (after : ℕ → A) × (play events s memory ≡ ok (t, after))
      × Shows t after (deliver_all events m)
unfolding play deliver_all
play-deliver_all [] s memory m h = (s, memory, refl, h)
play-deliver_all (present frame ∷ events) s memory m h =
    let (t, after, e, shows) =
      play-deliver_all events (requeued s) (write memory s.render frame) (deliver (present frame) m)
        (present-Shows frame s memory m h) in
    (t, after, rw (queue_render_active s h.valid h.on h.good) e, shows)
play-deliver_all (vsync false ∷ events) s memory m h =
    let (t, after, e, shows) =
      play-deliver_all events (after_failure s) memory (deliver (vsync false) m)
        (failed-Shows s memory m h) in
    (t, after, rw (complete_failed_active s h.valid h.on) e, shows)
play-deliver_all (vsync true ∷ events) s memory m h =
    let (t, after, e, shows) =
      play-deliver_all events (after_flip s) memory (deliver (vsync true) m)
        (flip-Shows s memory m h) in
    (t, after, rw (complete_flipped s h.valid h.good) e, shows)

-- After any sequence of presented frames and vsyncs from the initial active model, with each frame drawn
-- into the render buffer before each `queue_render`, no call raises, and the front buffer holds what a
-- mailbox shows: the last frame that was presented before the last vsync whose re-arm succeeded (the
-- buffer's first contents when there is none), and the queued buffer, if there is one, holds the frame
-- that waits for the next vsync.
pub play-Mailbox {ℓ} :
    {A : Type ℓ} (events : List (Event A)) (memory : ℕ → A)
    → (t : OwnershipModel) × (after : ℕ → A) × (play events (new_model true) memory ≡ ok (t, after))
      × (after t.front ≡ (deliver_all events (new_mail memory)).shown)
      × (Option.map after t.queued ≡ (deliver_all events (new_mail memory)).waiting)
play-Mailbox events memory =
    let (t, after, e, shows) =
      play-deliver_all events (new_model true) memory (new_mail memory) (record {
        valid = new_model-IsValid true;
        on = refl;
        good = refl;
        front = refl;
        queue = refl;
      }) in
    (t, after, e, shows.front, shows.queue)
