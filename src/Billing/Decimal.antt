-- ===== src/Billing/Decimal.antt =====
-- Python's `decimal` on numbers that are not negative, in its default context of 28 significant
-- digits, as backend/app/services/billing_service.py uses it.
use my_frist_reop.Prelude.{ℕ, zero, suc, ◌+◌, ◌*◌, ◌/◌, ◌%◌, ◌^◌, ◌==◌, leb, ltb, if◌then◌else◌}

-- The number `coeff / 10 ^ scale`.
pub record Decimal : Type 0 where
  pub coeff : ℕ
  pub scale : ℕ

-- `Decimal(str(n))` for an integer.
abbrev pub of_int : ℕ → Decimal
of_int n = record { coeff = n; scale = 0 }

-- `ROUND_HALF_EVEN`, the rounding of the context.
unfoldable pub div_half_even : ℕ → ℕ → ℕ
div_half_even n d =
    let q = n / d in
    let r = 2 * (n % d) in
    if ltb r d then q else if ltb d r then q + 1 else if q % 2 == 0 then q else q + 1

-- The least scale from `k` on, within the fuel, at which `n / d` has 28 digits.
unfoldable pub scale_from : ℕ → ℕ → ℕ → ℕ → ℕ
scale_from zero k n d = k
scale_from (suc fuel) k n d =
    let next = scale_from fuel (k + 1) n d in if leb (10 ^ 27) (n * 10 ^ k / d) then k else next

-- `n / d` to 28 digits. The fuel is enough for every quotient from 10 ^ -33 on.
unfoldable pub round_28 : ℕ → ℕ → Decimal
unfolding div_half_even scale_from
round_28 n d =
    let k = scale_from 60 0 n d in record { coeff = div_half_even (n * 10 ^ k) d; scale = k }

unfoldable pub div : Decimal → Decimal → Decimal
unfolding round_28
div a b = round_28 (a.coeff * 10 ^ b.scale) (b.coeff * 10 ^ a.scale)

unfoldable pub mul : Decimal → Decimal → Decimal
unfolding round_28
mul a b = round_28 (a.coeff * b.coeff) (10 ^ (a.scale + b.scale))

unfoldable pub add : Decimal → Decimal → Decimal
unfolding round_28
add a b = round_28 (a.coeff * 10 ^ b.scale + b.coeff * 10 ^ a.scale) (10 ^ (a.scale + b.scale))

-- `value.quantize(Decimal("0.0001"), rounding=ROUND_HALF_UP)`, in units of 0.0001.
unfoldable pub quantize_4 : Decimal → ℕ
quantize_4 a = (2 * a.coeff * 10000 + 10 ^ a.scale) / (2 * 10 ^ a.scale)

-- `_quantize(value, "0.01")` of an amount in units of 0.0001, in units of 0.01.
unfoldable pub quantize_2 : ℕ → ℕ
quantize_2 n = (n + 50) / 100
