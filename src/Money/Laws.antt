-- ===== src/Money/Laws.antt =====
-- Rounding to cents: whole cents, nearness, order.
use native.Mathlib.Nat.{mul-div-mul_right, div-mul-le_self, lt-div-mul-add, le_of_mul-le-mul_right}
use mathlib.Core.Path.{ap₂}
use backend_ssas_rrhh.Base.{ℕ, ◌+◌, ◌*◌, ◌≤◌, ◌<◌, ◌≡◌, refl, arith, ◌-◌, min, ◌/◌, ap, ◌∙◌}
use backend_ssas_rrhh.Money.{cent, round_half_up, quantize_ratio, money}

-- An amount of whole cents.
abbrev pub IsCents : ℕ → Type 0
IsCents n = (k : ℕ) × (n ≡ k * 100)

pub quantize_ratio-IsCents : (n d : ℕ) → IsCents (quantize_ratio n d)
unfolding quantize_ratio
quantize_ratio-IsCents n d = (round_half_up n (d * cent), refl)

pub money-eq : (n : ℕ) → IsCents n → money n ≡ n
unfolding money
money-eq n h = omega arith

pub money_mono : (m n : ℕ) → m ≤ n → money m ≤ money n
unfolding money
money_mono m n h = omega arith

pub IsCents-add : {m n : ℕ} → IsCents m → IsCents n → IsCents (m + n)
IsCents-add (a, p) (b, q) = (a + b, omega arith)

pub IsCents-sub : {m n : ℕ} → IsCents m → IsCents n → IsCents (m - n)
IsCents-sub (a, p) (b, q) = (a - b, omega arith)

pub IsCents-min : {m n : ℕ} → IsCents m → IsCents n → IsCents (min m n)
IsCents-min (a, p) (b, q) = (min a b, omega arith)

-- The rounded quotient is within half a cent of the quotient.
pub quantize_ratio_near :
    (n d : ℕ)
    → 0 < d
    → (quantize_ratio n d * d ≤ n + 50 * d) × (n < quantize_ratio n d * d + 50 * d)
unfolding quantize_ratio round_half_up
quantize_ratio_near n d h =
    let k = 2 * (d * cent) in
    let low = div-mul-le_self (2 * n + d * cent) k in
    let high = lt-div-mul-add {a = 2 * n + d * cent} {b = k} (omega arith) in
    (omega arith, omega arith)

-- A share of at most the whole rounds to at most the whole, rounded.
pub quantize_ratio-share : (n p d : ℕ) → 0 < d → p ≤ d → quantize_ratio (n * p) d ≤ money n
unfolding quantize_ratio round_half_up money
quantize_ratio-share n p d h le =
    let q = (2 * (n * p) + d * cent) / (2 * (d * cent)) in
    let low = div-mul-le_self (2 * (n * p) + d * cent) (2 * (d * cent)) in
    let part : n * p ≤ n * d = grind arith in
    let whole : q * 200 * d ≤ (2 * n + cent) * d = omega arith in
    let fits : q * 200 ≤ 2 * n + cent = le_of_mul-le-mul_right whole h in omega arith

pub quantize_ratio-whole : (n d : ℕ) → 0 < d → quantize_ratio (n * d) d ≡ money n
unfolding quantize_ratio round_half_up money
quantize_ratio-whole n d h =
    ap (λ (q : ℕ). q * cent)
      (ap₂ (λ (a b : ℕ). a / b) (omega arith) (omega arith)
        ∙ mul-div-mul_right {m = d} (2 * n + cent) (2 * cent) h)
