-- ===== src/UsbReset.antt =====
-- scripts/usb-reset-arm.py: asking a running system to accept a reset over USB.
pub mod Armed
pub mod Writes
use micro_nux.Base.{
  ℕ, ◌+◌, ◌-◌, Bool, true, false, Option, none, some, List, [], ◌∷◌, ◌++◌, Text, codes, length,
  drop, ltb, leb, if◌then◌else◌,
}
use micro_nux.Base.Strings.{is_within}

-- One round of the loop before the deadline: the clock in milliseconds, and what `device.read` returns.
pub record Round : Type 0 where
  pub now : ℕ
  pub chunk : Text

abbrev pub usb_reset_sysfs : Text
usb_reset_sysfs = codes "/sys/kernel/micronux/usb_reset"

-- The token, from the digits of `time.monotonic_ns()`, and the command that is sent.
abbrev pub token_of : Text → Text
token_of ns = codes "MICRONUX_USB_RESET_ARM_" ++ ns

unfoldable pub command_of : Text → Text
command_of token =
    codes "if [ -w "
    ++ (usb_reset_sysfs
        ++ (codes " ]; then echo enable >"
            ++ (usb_reset_sysfs ++ (codes "; fi; echo " ++ (token ++ codes "\n")))))

-- `if len(captured) > 16384: del captured[:-8192]`
unfoldable pub trim : Text → Text
trim captured =
    if ltb 16384 (length captured) then drop (length captured - 8192) captured else captured

-- What is kept behind a chunk; `none` where the token has come.
unfoldable pub hear : Text → Text → Text → Option Text
hear token captured [] = some captured
hear token captured (b ∷ bs) =
    if is_within token (captured ++ (b ∷ bs)) then none else some (trim (captured ++ (b ∷ bs)))

-- The loop, with the time of the next write and the bytes captured: is the token heard, and how many
-- commands are sent. A `SerialException` is the end of the rounds.
unfoldable pub arm_loop : Text → ℕ → Text → List Round → Bool × ℕ
arm_loop token next_write captured [] = (false, 0)
arm_loop token next_write captured (r ∷ rounds) =
    let due = leb next_write r.now in
    let sent = if due then 1 else 0 in
    let next = if due then r.now + 500 else next_write in
    elim (hear token captured r.chunk) [
      | none ↦ (true, sent)
      | some captured' ↦
          let (armed, more) = arm_loop token next captured' rounds in (armed, sent + more)
    ]

unfoldable pub arm : Text → List Round → Bool × ℕ
arm token rounds = arm_loop token 0 [] rounds
