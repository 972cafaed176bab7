-- ===== src/Money.antt =====
-- Decimal amounts (src/ssas/personal/application/payroll.py, rc_iva.py). A finite amount is a
-- whole number of ten-thousandths, so a cent is 100 units; the columns and schemas of the program
-- admit at most four decimals. Python's 28-digit context is exact on the products that occur.
pub mod Laws
use backend_ssas_rrhh.Base.{ℕ, suc, ◌+◌, ◌*◌, ◌/◌, Option, none, some, ltb, if◌then◌else◌}
use backend_ssas_rrhh.Base.Int.{ℤ, pos, negsuc}

-- A value of Python's `Decimal`.
pub data Decimal : Type 0 where
  finite : ℤ → Decimal
  infinity neg_infinity nan : Decimal

-- `Decimal("0.01")` in units.
abbrev pub cent : ℕ
cent = 100

-- `Decimal(1)` in units.
abbrev pub one : ℕ
one = 10000

-- Half up: the whole number nearest to n / d, ties away from zero.
unfoldable pub round_half_up : ℕ → ℕ → ℕ
round_half_up n d = (2 * n + d) / (2 * d)

-- `(n / d).quantize(CENT, rounding=ROUND_HALF_UP)` of a quotient of units, in units.
unfoldable pub quantize_ratio : ℕ → ℕ → ℕ
unfolding round_half_up
quantize_ratio n d = round_half_up n (d * cent) * cent

-- `x.quantize(CENT, rounding=ROUND_HALF_UP)` of an amount of at least zero.
unfoldable pub money : ℕ → ℕ
unfolding round_half_up
money n = round_half_up n cent * cent

abbrev pub negate : ℕ → ℤ
negate n = elim n [ ℕ.zero ↦ pos 0 | suc k ↦ negsuc k ]

-- `(n / d).quantize(CENT, rounding=ROUND_HALF_UP)` of any sign; a negative that rounds to zero is
-- not below zero.
unfoldable pub quantize : ℤ → ℕ → ℤ
quantize (pos n) d = pos (quantize_ratio n d)
quantize (negsuc n) d = negate (quantize_ratio (suc n) d)

-- `0 < x`, with the positive amount.
unfoldable pub positive : ℤ → Option ℕ
positive (pos n) = if ltb 0 n then some n else none
positive (negsuc n) = none
