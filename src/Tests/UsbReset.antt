-- ===== src/Tests/UsbReset.antt =====
-- Runs of usb-reset-arm.py.
use micro_nux.Base.{
  ◌⊎◌, ◌<◌, ◌≡◌, ◌↔◌, refl, true, List, [], ◌∷◌, Text, codes, arith, ◌*◌, ◌+◌, ◌-◌, ◌≤◌,
}
use micro_nux.Base.Find.{Occurs}
use micro_nux.Base.Strings.{is_within}
use micro_nux.UsbReset.{Round, token_of, command_of, hear, trim, arm_loop, arm}
use micro_nux.UsbReset.Writes.{arm_sends, last_time}
use micro_nux.UsbReset.Armed.{stream, arm-Occurs}

abbrev token : Text
token = token_of (codes "12")

abbrev rounds : List Round
rounds =
    record { now = 0; chunk = codes "\nMICRONUX_USB_RE" }
    ∷ record { now = 100; chunk = [] }
    ∷ record { now = 500; chunk = codes "SET_ARM_12\n" }
    ∷ []

-- The token comes in two parts, and the command has been sent twice.
armed : arm token rounds ≡ (true, 2)
unfolding arm arm_loop hear trim is_within
armed = refl

-- A terminal that echoes the command and runs nothing counts as armed.
echoed : arm token (record { now = 0; chunk = command_of token } ∷ []) ≡ (true, 1)
unfolding arm arm_loop hear trim is_within command_of
echoed = refl

arm-Occurs_example : ((arm token rounds).0 ≡ true) ↔ Occurs token (stream rounds)
arm-Occurs_example = arm-Occurs token (omega arith) (omega arith) rounds

abbrev first_round : Round
first_round = record { now = 0; chunk = codes "\nMICRONUX_USB_RE" }

abbrev later_rounds : List Round
later_rounds =
    record { now = 100; chunk = [] } ∷ record { now = 500; chunk = codes "SET_ARM_12\n" } ∷ []

arm_sends_example :
    let (is_armed, sent) = arm token (first_round ∷ later_rounds) in
    (1 ≤ sent)
    × ((500 * sent ≤ 500 + (600 - 0))
        × ((is_armed ≡ true) ⊎ (last_time 0 later_rounds < 0 + sent * (500 + 400))))
arm_sends_example = arm_sends token 600 400 first_round later_rounds (omega arith) (omega arith)
