-- ===== src/Hardware/Samples.antt =====
-- `scanout_samples` and `diagnostics_samples`: the lines of two sysfs files as records.
use Prim.Native.String.{String}
use micro_nux.Base.{
  ℕ, Bool, true, false, ◌||◌, Option, none, some, List, [], ◌∷◌, Text, ◌==◌, get_elem?,
  if◌then◌else◌, ℤ, pos, negate,
}
use micro_nux.Base.Regex.{Re, Found, find_all, digits, is_hex, lit, ◌&◌, optional, number_after}
use micro_nux.Base.Strings.{decimal, hexadecimal}

-- The names of the groups that hold counters and registers.
pub data Counter : Type 0 where
  before after frames error underruns chen faults host0 host1 buffers : Counter
  rearms rearm_failures flip_requests flip_completions generation commit guard_errors : Counter
  arm_to_irq_last arm_to_irq_max arm_to_irq_over20ms rearm_last rearm_max : Counter
  fifo_irq_last fifo_irq_min fifo_irq_zero fifo_poll_last fifo_poll_min fifo_poll_zero : Counter
  bridge_filler bridge_misc : Counter

-- The names of the groups that hold a buffer's number, or -1.
pub data Role : Type 0 where
  front queued back : Role

-- The dict of a line: its unsigned values and its signed ones.
pub record Sample : Type 0 where
  pub count : Counter → ℕ
  pub role : Role → ℤ

-- The groups of both patterns, by kind.
abbrev hex_after : String → Re
hex_after s = lit s & Re.group (Re.run is_hex 1 none)

abbrev register_after : String → Re
register_after s = lit s & Re.group (Re.run is_hex 8 (some 8))

abbrev role_after : String → Re
role_after s = lit s & Re.group (optional (lit "-") & digits)

abbrev three_after : String → Re
three_after s = number_after s & number_after "/" & number_after "/"

abbrev pub line_break : Re
line_break = optional (lit "\r") & Re.line_end

-- What stands in both lines between the buffers and the guards, and behind them.
abbrev buffers_re : Re
buffers_re =
    number_after " buffers="
    & role_after " front="
    & role_after " queued="
    & role_after " back="
    & number_after " rearm="
    & number_after "/"
    & number_after " flips="
    & number_after "/"
    & number_after " generation="
    & number_after " commit="
    & lit " guards=ok"
    & number_after " guard-errors="

abbrev timing_re : Re
timing_re =
    number_after " arm-to-irq-ns="
    & number_after "/"
    & number_after " arm-to-irq-over20ms="
    & number_after " rearm-ns="
    & number_after "/"
    & three_after " fifo-irq="
    & three_after " fifo-poll="
    & register_after " bridge-filler="
    & register_after " bridge-misc="
    & lit " i2c=active-serialized"

abbrev scanout_line_re : Re
scanout_line_re =
    Re.line_start
    & lit "running abi=3 state=RUNTIME_REVEALED"
    & number_after " frames="
    & number_after "->"
    & register_after " error="
    & number_after " underruns="
    & lit " chen="
    & Re.group (Re.one (λ c. c == b'0' || c == b'1'))
    & hex_after " faults="
    & register_after " host-errors="
    & register_after ":"
    & lit " frame-ack=on clock=auto lp=enabled backlight-gate=on"
    & buffers_re
    & timing_re
    & line_break

abbrev diagnostics_line_re : Re
diagnostics_line_re =
    Re.line_start
    & lit "abi=3 state=RUNTIME_REVEALED"
    & number_after " frames="
    & hex_after " faults="
    & register_after " error="
    & register_after " host-errors="
    & register_after ":"
    & number_after " underruns="
    & buffers_re
    & lit " policy=ok"
    & timing_re
    & lit " physical-panel-state=unobserved"
    & line_break

-- The set `hexadecimal`.
is_hexadecimal : Counter → Bool
is_hexadecimal error = true
is_hexadecimal faults = true
is_hexadecimal host0 = true
is_hexadecimal host1 = true
is_hexadecimal bridge_filler = true
is_hexadecimal bridge_misc = true
is_hexadecimal other = false

-- The place of a group in its pattern. A line has no value under a name without a place.
abbrev scanout_place : Counter → Option ℕ
scanout_place before = some 0
scanout_place after = some 1
scanout_place frames = none
scanout_place error = some 2
scanout_place underruns = some 3
scanout_place chen = some 4
scanout_place faults = some 5
scanout_place host0 = some 6
scanout_place host1 = some 7
scanout_place buffers = some 8
scanout_place rearms = some 12
scanout_place rearm_failures = some 13
scanout_place flip_requests = some 14
scanout_place flip_completions = some 15
scanout_place generation = some 16
scanout_place commit = some 17
scanout_place guard_errors = some 18
scanout_place arm_to_irq_last = some 19
scanout_place arm_to_irq_max = some 20
scanout_place arm_to_irq_over20ms = some 21
scanout_place rearm_last = some 22
scanout_place rearm_max = some 23
scanout_place fifo_irq_last = some 24
scanout_place fifo_irq_min = some 25
scanout_place fifo_irq_zero = some 26
scanout_place fifo_poll_last = some 27
scanout_place fifo_poll_min = some 28
scanout_place fifo_poll_zero = some 29
scanout_place bridge_filler = some 30
scanout_place bridge_misc = some 31

abbrev diagnostics_place : Counter → Option ℕ
diagnostics_place before = none
diagnostics_place after = none
diagnostics_place frames = some 0
diagnostics_place error = some 2
diagnostics_place underruns = some 5
diagnostics_place chen = none
diagnostics_place faults = some 1
diagnostics_place host0 = some 3
diagnostics_place host1 = some 4
diagnostics_place buffers = some 6
diagnostics_place rearms = some 10
diagnostics_place rearm_failures = some 11
diagnostics_place flip_requests = some 12
diagnostics_place flip_completions = some 13
diagnostics_place generation = some 14
diagnostics_place commit = some 15
diagnostics_place guard_errors = some 16
diagnostics_place arm_to_irq_last = some 17
diagnostics_place arm_to_irq_max = some 18
diagnostics_place arm_to_irq_over20ms = some 19
diagnostics_place rearm_last = some 20
diagnostics_place rearm_max = some 21
diagnostics_place fifo_irq_last = some 22
diagnostics_place fifo_irq_min = some 23
diagnostics_place fifo_irq_zero = some 24
diagnostics_place fifo_poll_last = some 25
diagnostics_place fifo_poll_min = some 26
diagnostics_place fifo_poll_zero = some 27
diagnostics_place bridge_filler = some 28
diagnostics_place bridge_misc = some 29

abbrev scanout_role : Role → ℕ
scanout_role front = 9
scanout_role queued = 10
scanout_role back = 11

abbrev diagnostics_role : Role → ℕ
diagnostics_role front = 7
diagnostics_role queued = 8
diagnostics_role back = 9

group_at : List Text → Option ℕ → Text
group_at groups none = []
group_at groups (some i) = elim (get_elem? groups i) [ none ↦ [] | some text ↦ text ]

-- `int(value)` of digits with or without a minus sign.
signed : Text → ℤ
signed [] = pos 0
signed (c ∷ cs) = if c == b'-' then negate (decimal cs) else pos (decimal (c ∷ cs))

-- The dict comprehension over `match.groupdict()`.
sample_of : (Counter → Option ℕ) → (Role → ℕ) → List Text → Sample
unfolding is_hexadecimal group_at signed
sample_of place role_place groups = record {
  count = λ key.
      let value = group_at groups (place key) in
      if is_hexadecimal key then hexadecimal value else decimal value;
  role = λ key. signed (group_at groups (some (role_place key)));
}

samples_of : (List Text → Sample) → List Found → List Sample
samples_of make [] = []
samples_of make ((groups, _) ∷ rest) = make groups ∷ samples_of make rest

unfoldable pub scanout_samples : Text → List Sample
unfolding samples_of sample_of
scanout_samples output =
    samples_of (sample_of scanout_place scanout_role) (find_all scanout_line_re output)

unfoldable pub diagnostics_samples : Text → List Sample
unfolding samples_of sample_of
diagnostics_samples output =
    samples_of (sample_of diagnostics_place diagnostics_role) (find_all diagnostics_line_re output)
