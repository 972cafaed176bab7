-- ===== src/Asistencia/Horas.antt =====
-- `minutes_late` and `worked_hours` of src/ssas/personal/application/attendance.py. An hour is 10^40
-- units here, of which the quotients of Python's decimals are multiples: the smallest one that
-- occurs, a microsecond in hours, has 28 digits up to the 37th decimal.
use backend_ssas_rrhh.Base.{
  ℕ, zero, suc, ◌+◌, ◌-◌, ◌*◌, ◌/◌, ◌%◌, ◌^◌, ◌||◌, String, ltb, ◌==◌, Outcome, ok, ◌>>◌, raise_if,
  if◌then◌else◌,
}
use backend_ssas_rrhh.Money.{round_half_up}

abbrev pub minute : ℕ
minute = 60000000

abbrev pub hour : ℕ
hour = 3600000000

abbrev pub day : ℕ
day = 86400000000

-- `astimezone(LOCAL_ZONE).date()` and `.time()` of a wall clock, which counts microseconds from the
-- start of the ordinals.
abbrev pub date_of : ℕ → ℕ
date_of wall = wall / day

abbrev pub time_of : ℕ → ℕ
time_of wall = wall % day

-- The scheduled start is in minutes of the day: its seconds are not read.
unfoldable pub minutes_late : ℕ → ℕ → ℕ
minutes_late entry_local scheduled_start = (time_of entry_local - scheduled_start * minute) / minute

-- The unit of the last of the 28 digits of a value: the power of ten that is dropped. A span of
-- Python's dates has fewer than 10^48 units, so that twenty digits at most are dropped.
unfoldable pub ulp : ℕ → ℕ → ℕ
ulp zero v = 1
ulp (suc fuel) v = let more = 10 * ulp fuel (v / 10) in if ltb v (10 ^ 28) then 1 else more

-- n / d to the nearest whole number, a tie to the even one.
unfoldable pub round_half_even : ℕ → ℕ → ℕ
round_half_even n d =
    if ltb (2 * (n % d)) d
    then n / d
    else if ltb d (2 * (n % d))
    then suc (n / d)
    else n / d + n / d % 2

-- n / d in the context of 28 digits.
unfoldable pub in_context : ℕ → ℕ → ℕ
unfolding ulp round_half_even
in_context n d = let u = ulp 40 (n / d) in round_half_even n (d * u) * u

-- The time between two instants, and a break, in hours.
unfoldable pub elapsed_hours : ℕ → ℕ → ℕ
unfolding in_context
elapsed_hours entry exit_at = in_context ((exit_at - entry) * 10 ^ 40) hour

unfoldable pub break_hours : ℕ → ℕ
unfolding in_context
break_hours break_minutes = in_context (break_minutes * 10 ^ 40) 60

-- The hours worked and the overtime, or the text of the `ValueError`.
unfoldable pub worked_hours : ℕ → ℕ → ℕ → ℕ → Outcome String (ℕ × ℕ)
unfolding elapsed_hours break_hours in_context round_half_up
worked_hours entry exit_at break_minutes scheduled_hours = do
  let elapsed = elapsed_hours entry exit_at
  raise_if (elapsed == 0 || ltb (24 * 10 ^ 40) elapsed) "Duracion de asistencia invalida"
  let rest = break_hours break_minutes
  raise_if (ltb elapsed rest) "El descanso supera la jornada marcada"
  let worked = round_half_up (in_context (elapsed - rest) 1) (10 ^ 38)
  ok (worked, worked - scheduled_hours)
