-- ===== src/Store/Money.antt =====
-- Amounts of money in src/pelicanbench/campaign_store.py. A float is a number of 10 ^ -12 currency
-- units, so that `round(x, 8)` has something to round away.
use pelican_bench.Base.{
  ℕ, suc, ◌+◌, ◌*◌, ◌/◌, ◌%◌, ◌≤◌, ltb, eqb, ◌||◌, ◌&&◌, if◌then◌else◌, Option, none, some, arith,
  ◌≡◌,
}
use pelican_bench.Base.Int.{ℤ, pos, negsuc, ◌-ℤ◌}

-- a float argument: a number, or what `math.isfinite` refuses
pub data Amount : Type 0 where
  finite : ℤ → Amount
  infinite nan : Amount

-- 10 ^ -8 of the currency, the unit that `round(x, 8)` rounds to
abbrev pub grain : ℕ
grain = 10000

-- `round(x, 8)` of an amount that is not negative: to the nearest grain, a tie to the even one
unfoldable pub round8 : ℕ → ℕ
round8 n =
    let q = n / 10000 in
    let r = n % 10000 in
    if ltb 5000 r || (eqb r 5000 && eqb (q % 2) 1) then (q + 1) * 10000 else q * 10000

-- `round(x, 8)` of any amount
unfoldable pub round8_ℤ : ℤ → ℤ
round8_ℤ (pos n) = pos (round8 n)
round8_ℤ (negsuc n) = pos 0 -ℤ pos (round8 (suc n))

-- `x or 0.0`, and the sum of a column that may be NULL
abbrev pub or_zero : Option ℤ → ℤ
or_zero none = pos 0
or_zero (some e) = e

-- Rounding moves an amount by half a grain at most.
pub round8_near : (n : ℕ) → (round8 n ≤ n + 5000) × (n ≤ round8 n + 5000)
unfolding round8
round8_near n = ground arith

-- A whole number of grains is left as it is.
pub round8_grains : (k : ℕ) → round8 (k * 10000) ≡ k * 10000
unfolding round8
round8_grains k = ground arith
