-- ===== src/UsbReset/Writes.antt =====
-- How often usb-reset-arm.py sends its command.
use micro_nux.Base.{
  ℕ, ◌+◌, ◌-◌, ◌*◌, ◌<◌, ◌≤◌, ◌≡◌, ◌⊎◌, refl, inl, inr, Bool, true, false, List, [], ◌∷◌, Text, All,
  leb, if◌then◌else◌, Option-cases, arith,
}
use micro_nux.UsbReset.{Round, hear, arm_loop, arm}

-- The clock in the last round, and each round at most `gap` behind the one before it.
abbrev pub last_time : ℕ → List Round → ℕ
last_time now [] = now
last_time now (r ∷ rounds) = last_time r.now rounds

abbrev pub Gaps : ℕ → ℕ → List Round → Type 0
Gaps gap now [] = Unit
Gaps gap now (r ∷ rounds) = (r.now ≤ now + gap) × Gaps gap r.now rounds

before_next : (next now : ℕ) → now < (if leb next now then now + 500 else next)
before_next next now = ground arith

-- A round that sends moves the next write on by a half second and a gap at most.
one_round :
    (due : Bool) (next now last gap more : ℕ)
    → now < next + gap
    → last < (if due then now + 500 else next) + more * (500 + gap)
    → last < next + ((if due then 1 else 0) + more) * (500 + gap)
one_round true next now last gap more lt late = omega (arith, lt, late)
one_round false next now last gap more lt late = omega (arith, late)

first_round :
    (now next last gap one more : ℕ)
    → next ≡ now + 500
    → one ≡ 1
    → last < next + more * (500 + gap)
    → last < now + (one + more) * (500 + gap)
first_round now next last gap one more e f late = rw f (omega (arith, e, late))

module _ (token : Text) (end gap : ℕ) where
  loop_sends :
      (next : ℕ) (captured : Text) (rounds : List Round)
      → next ≤ end + 500
      → All (λ (r : Round). r.now ≤ end) rounds
      → 500 * (arm_loop token next captured rounds).1 + next ≤ end + 500
  unfolding arm_loop
  loop_sends next captured [] le h = omega arith
  loop_sends next captured (r ∷ rounds) le h =
      let next' = if leb next r.now then r.now + 500 else next in
      let fits : next' ≤ end + 500 = ground (arith, h.0) in
      elim (Option-cases (hear token captured r.chunk)) [
        | inl e ↦ rw (arm_loop, e) (ground (arith, h.0))
        | inr (c, e) ↦
            let more = loop_sends next' c rounds fits h.1 in rw (arm_loop, e) (ground (arith, more))
      ]

  -- A loop that does not hear the token goes on sending.
  loop_keeps_sending :
      (next now : ℕ) (captured : Text) (rounds : List Round)
      → now < next
      → Gaps gap now rounds
      → let (armed, sent) = arm_loop token next captured rounds in
        (armed ≡ true) ⊎ (last_time now rounds < next + sent * (500 + gap))
  unfolding arm_loop
  loop_keeps_sending next now captured [] lt h = inr (omega (arith, lt))
  loop_keeps_sending next now captured (r ∷ rounds) lt h =
      let next' = if leb next r.now then r.now + 500 else next in
      elim (Option-cases (hear token captured r.chunk)) [
        | inl e ↦ rw (arm_loop, e) (inl refl)
        | inr (c, e) ↦ elim (loop_keeps_sending next' r.now c rounds (before_next next r.now) h.1) [
          | inl armed ↦ rw (arm_loop, e) (inl armed)
          | inr late ↦
              rw (arm_loop, e)
                (inr (
                  one_round (leb next r.now) next r.now (last_time r.now rounds) gap _
                    (omega (arith, lt, h.0)) late))
        ]
      ]

  -- If no round is later than the end of the wait, and each is at most a gap behind the one before it, the
  -- command is sent at least once; it is sent at most once more for each half second from the first round to the
  -- end; and either the reset is armed, or the number of commands, times a half second and a gap, is more than
  -- the time from the first round to the last.
  pub arm_sends :
      (r : Round) (rounds : List Round)
      → All (λ (q : Round). q.now ≤ end) (r ∷ rounds)
      → Gaps gap r.now rounds
      → let (armed, sent) = arm token (r ∷ rounds) in
        (1 ≤ sent)
        × ((500 * sent ≤ 500 + (end - r.now))
            × ((armed ≡ true) ⊎ (last_time r.now rounds < r.now + sent * (500 + gap))))
  unfolding arm arm_loop
  arm_sends r rounds h close = elim (Option-cases (hear token [] r.chunk)) [
    | inl e ↦ rw (arm_loop, e) (ground arith, (ground arith, inl refl))
    | inr (c, e) ↦
        let next = if leb 0 r.now then r.now + 500 else 0 in
        let fits : next ≤ end + 500 = ground (arith, h.0) in
        let due : next ≡ r.now + 500 = ground arith in
        let more = loop_sends next c rounds fits h.1 in
        let sent = (arm_loop token next c rounds).1 in
        rw (arm_loop, e)
          (
            ground arith,
            (
              ground (arith, more, h.0, due),
              elim (loop_keeps_sending next r.now c rounds (omega (arith, due)) close) [
                | inl armed ↦ inl armed
                | inr late ↦ inr (
                    first_round r.now next (last_time r.now rounds) gap _ sent due (ground arith)
                      late)
              ],
            ),
          )
  ]
