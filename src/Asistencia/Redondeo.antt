-- ===== src/Asistencia/Redondeo.antt =====
-- The hours worked are the exact ones to the nearest hundredth, whatever Python's decimals drop.
use native.Mathlib.Nat.{div-add-mod, mod-lt, mul-pos, pow-succ', mul_comm, mul_assoc}
use backend_ssas_rrhh.Base.{
  ℕ, zero, suc, ◌+◌, ◌-◌, ◌*◌, ◌/◌, ◌%◌, ◌^◌, ◌≤◌, ◌<◌, ◌≡◌, refl, ap, ◌∙◌, ◌⊎◌, inl, inr, Bool,
  false, ◌||◌, String, ltb, ◌==◌, ok, raise_if, ◌>>◌, Outcome, arith, Bool-cases,
}
use backend_ssas_rrhh.Money.{round_half_up}
use backend_ssas_rrhh.Asistencia.Horas.{
  hour, minute, ulp, round_half_even, in_context, elapsed_hours, break_hours, worked_hours,
}

-- The quotient, or the next number.
round_half_even-cases :
    (n d : ℕ)
    → ((round_half_even n d ≡ n / d) × (2 * (n % d) ≤ d))
      ⊎ ((round_half_even n d ≡ suc (n / d)) × (d ≤ 2 * (n % d)))
unfolding round_half_even
round_half_even-cases n d = elim (Bool-cases (ltb (2 * (n % d)) d)) [
  | inl below ↦ inl (rw below refl, ground arith)
  | inr least ↦ elim (Bool-cases (ltb d (2 * (n % d)))) [
    | inl above ↦ inr (rw least (rw above refl), ground arith)
    | inr tie ↦ elim (Bool-cases (n / d % 2 == 0)) [
      | inl even ↦ inl (rw least (rw tie (ground arith)), ground arith)
      | inr odd ↦ inr (rw least (rw tie (ground arith)), ground arith)
    ]
  ]
]

round_half_even_near :
    (n d : ℕ)
    → 0 < d
    → (2 * (round_half_even n d * d) ≤ 2 * n + d) × (2 * n ≤ 2 * (round_half_even n d * d) + d)
round_half_even_near n d h =
    let whole = div-add-mod n d in
    let part = mod-lt n h in
    elim (round_half_even-cases n d) [
      | inl (same, low) ↦
          let value : round_half_even n d * d ≡ d * (n / d) = rw same (mul_comm (n / d) d) in
          (omega arith, omega arith)
      | inr (next, high) ↦
          let value : round_half_even n d * d ≡ d * (n / d) + d = rw next (omega arith) in
          (omega arith, omega arith)
    ]

ulp_small : (fuel v : ℕ) → (ulp fuel v ≡ 1) ⊎ (10 ^ 27 * ulp fuel v ≤ v)
unfolding ulp
ulp_small zero v = inl refl
ulp_small (suc fuel) v = elim (Bool-cases (ltb v (10 ^ 28))) [
  | inl short ↦ inl (rw short refl)
  | inr long ↦ elim (ulp_small fuel (v / 10)) [
    | inl one ↦ inr (rw long (rw one (ground arith)))
    | inr small ↦ inr (rw long (ground arith))
  ]
]

-- Forty steps are enough for a value below 10^68, whose quotient by the unit then has 28 digits at most.
ulp_enough : (fuel v : ℕ) → v < 10 ^ 28 * 10 ^ fuel → v < 10 ^ 28 * ulp fuel v
unfolding ulp
ulp_enough zero v small = omega arith
ulp_enough (suc fuel) v small = elim (Bool-cases (ltb v (10 ^ 28))) [
  | inl short ↦ rw short (ground arith)
  | inr long ↦
      let power : 10 ^ suc fuel ≡ 10 * 10 ^ fuel = pow-succ' 10 fuel in
      let less : v / 10 < 10 ^ 28 * 10 ^ fuel = omega arith in
      let rest = ulp_enough fuel (v / 10) less in rw long (omega arith)
]

ulp_pos : (fuel v : ℕ) → 0 < ulp fuel v
unfolding ulp
ulp_pos zero v = omega arith
ulp_pos (suc fuel) v = ground (arith, ulp_pos fuel (v / 10))

-- The value in the context of 28 digits is within half of its last digit, which is one unit or less than
-- a part in 10^27.
in_context_near :
    (n d : ℕ)
    → 0 < d
    → (u : ℕ) × (2 * (in_context n d * d) ≤ 2 * n + d * u)
      × (2 * n ≤ 2 * (in_context n d * d) + d * u)
      × ((u ≡ 1) ⊎ (10 ^ 27 * u ≤ n / d))
unfolding in_context
in_context_near n d h =
    let u = ulp 40 (n / d) in
    let pos : 0 < d * u = mul-pos h (ulp_pos 40 (n / d)) in
    let near = round_half_even_near n (d * u) pos in
    let value : round_half_even n (d * u) * u * d ≡ round_half_even n (d * u) * (d * u) =
      mul_assoc (round_half_even n (d * u)) u d
      ∙ ap (λ t. round_half_even n (d * u) * t) (mul_comm u d) in
    (u, rw value near.0, rw value near.1, ulp_small 40 (n / d))

-- The units of 10^-40 hours that the three roundings drop do not reach a microsecond.
nearest :
    (us b elapsed rest worked w u v t : ℕ)
    → 2 * (elapsed * hour) ≤ 2 * (us * 10 ^ 40) + hour * u
    → 2 * (us * 10 ^ 40) ≤ 2 * (elapsed * hour) + hour * u
    → 10 ^ 27 * u ≤ us * 10 ^ 40 / hour + 10 ^ 27
    → 2 * (rest * 60) ≤ 2 * (b * 10 ^ 40) + 60 * v
    → 2 * (b * 10 ^ 40) ≤ 2 * (rest * 60) + 60 * v
    → 10 ^ 27 * v ≤ b * 10 ^ 40 / 60 + 10 ^ 27
    → elapsed ≤ 24 * 10 ^ 40
    → rest ≤ elapsed
    → 2 * worked ≤ 2 * (elapsed - rest) + t
    → 2 * (elapsed - rest) ≤ 2 * worked + t
    → 10 ^ 27 * t ≤ elapsed - rest + 10 ^ 27
    → w ≡ (2 * worked + 10 ^ 38) / (2 * 10 ^ 38)
    → (w * 36000000 + b * minute ≤ us + 18000000) × (us ≤ w * 36000000 + b * minute + 18000000)
nearest us b elapsed rest worked w u v t e1 e2 e3 r1 r2 r3 day_long fits w1 w2 w3 rounded =
    (omega arith, omega arith)

last_digit : (u v : ℕ) → (u ≡ 1) ⊎ (10 ^ 27 * u ≤ v) → 10 ^ 27 * u ≤ v + 10 ^ 27
last_digit u v (inl one) = omega arith
last_digit u v (inr small) = omega arith

-- What a computation that returned has passed.
record Worked (elapsed rest scheduled w o : ℕ) : Type 0 where
  some_time : 0 < elapsed
  day_long : elapsed ≤ 24 * 10 ^ 40
  fits : rest ≤ elapsed
  rounded : w ≡ (2 * in_context (elapsed - rest) 1 + 10 ^ 38) / (2 * 10 ^ 38)
  extra : o ≡ w - scheduled

abbrev guarded : ℕ → ℕ → Outcome String (ℕ × ℕ)
guarded x y = ok (x, x - y)

two_guards :
    (p q : Bool) (e1 e2 : String) (x y w o : ℕ)
    → (raise_if p e1 >> (raise_if q e2 >> guarded x y)) ≡ ok (w, o)
    → (p ≡ false) × (q ≡ false) × (w ≡ x) × (o ≡ w - y)
two_guards p q e1 e2 x y w o returned = ground arith

in_a_day :
    (elapsed most : ℕ)
    → (elapsed == 0 || ltb most elapsed) ≡ false
    → (0 < elapsed) × (elapsed ≤ most)
in_a_day elapsed most lasts = ground arith

not_below : (a b : ℕ) → ltb a b ≡ false → b ≤ a
not_below a b h = ground arith

worked_hours-Worked :
    (entry exit_at b scheduled w o : ℕ)
    → worked_hours entry exit_at b scheduled ≡ ok (w, o)
    → Worked (elapsed_hours entry exit_at) (break_hours b) scheduled w o
unfolding worked_hours round_half_up
worked_hours-Worked entry exit_at b scheduled w o returned =
    let elapsed = elapsed_hours entry exit_at in
    let rest = break_hours b in
    let (lasts, fits, hours, more) =
      two_guards (elapsed == 0 || ltb (24 * 10 ^ 40) elapsed) (ltb elapsed rest)
        "Duracion de asistencia invalida" "El descanso supera la jornada marcada"
        (round_half_up (in_context (elapsed - rest) 1) (10 ^ 38)) scheduled w o returned in
    let (some_time, day_long) = in_a_day elapsed (24 * 10 ^ 40) lasts in
    record {
      some_time = some_time;
      day_long = day_long;
      fits = not_below elapsed rest fits;
      rounded = hours;
      extra = more;
    }

-- A span of no time is no hours, and a longer one than a day is more than 24.
within_day :
    (us elapsed u : ℕ)
    → 2 * (elapsed * hour) ≤ 2 * (us * 10 ^ 40) + hour * u
    → 2 * (us * 10 ^ 40) ≤ 2 * (elapsed * hour) + hour * u
    → 10 ^ 27 * u ≤ us * 10 ^ 40 / hour + 10 ^ 27
    → 0 < elapsed
    → elapsed ≤ 24 * 10 ^ 40
    → (0 < us) × (us ≤ 24 * hour)
within_day us elapsed u e1 e2 e3 some_time day_long = (omega arith, omega arith)

-- Where the hours of an attendance are computed, it lasts for more than nothing and 24 hours at most. The
-- hours worked, less the break, are a nearest number of hundredths of an hour to the exact ones, which are
-- counted in microseconds; the overtime is what they are above the scheduled hours.
pub worked_hours-nearest :
    (entry exit_at b scheduled w o : ℕ)
    → worked_hours entry exit_at b scheduled ≡ ok (w, o)
    → (0 < exit_at - entry)
      × (exit_at - entry ≤ 24 * hour)
      × (w * 36000000 + b * minute ≤ exit_at - entry + 18000000)
      × (exit_at - entry ≤ w * 36000000 + b * minute + 18000000)
      × (o ≡ w - scheduled)
unfolding elapsed_hours break_hours
worked_hours-nearest entry exit_at b scheduled w o returned =
    let k = worked_hours-Worked entry exit_at b scheduled w o returned in
    let us = exit_at - entry in
    let elapsed = elapsed_hours entry exit_at in
    let rest = break_hours b in
    let (u, e1, e2, e3) = in_context_near (us * 10 ^ 40) hour (omega arith) in
    let (v, r1, r2, r3) = in_context_near (b * 10 ^ 40) 60 (omega arith) in
    let (t, w1, w2, w3) = in_context_near (elapsed - rest) 1 (omega arith) in
    let e4 = last_digit u (us * 10 ^ 40 / hour) e3 in
    let r4 = last_digit v (b * 10 ^ 40 / 60) r3 in
    let w4 = last_digit t ((elapsed - rest) / 1) w3 in
    let (some_us, day_us) = within_day us elapsed u e1 e2 e4 k.some_time k.day_long in
    let (low, high) =
      nearest us b elapsed rest (in_context (elapsed - rest) 1) w u v t e1 e2 e4 r1 r2 r4 k.day_long
        k.fits (omega arith) (omega arith) (omega arith) k.rounded in
    (some_us, day_us, low, high, k.extra)
