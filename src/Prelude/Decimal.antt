-- ===== src/Prelude/Decimal.antt =====
-- `%d` of a natural number.
use Prim.Native.Nat.{ℕ, zero, suc, ◌+◌, ◌-◌, ◌*◌, ◌/◌, ◌%◌, ◌<◌}
use mathlib.Core.Path.{◌≡◌}
use mathlib.Core.List.{[], ◌∷◌}
use native.Mathlib.Omega.{arith}
use couchbase_health_observe.Prelude.Tests.{ltb, if◌then◌else◌}
use couchbase_health_observe.Prelude.Text.{Str}

-- The digits of a number before a text; the fuel is more than the number of digits.
unfoldable digits : ℕ → ℕ → Str → Str
digits zero n s = s
digits (suc fuel) n s =
    let more = digits fuel (n / 10) ((48 + n % 10) ∷ s) in
    if ltb n 10 then (48 + n % 10) ∷ s else more

unfoldable pub decimal : ℕ → Str
unfolding digits
decimal n = digits (suc n) n []

-- The number that a text of digits is read as, behind another.
abbrev pub value : ℕ → Str → ℕ
value n [] = n
value n (c ∷ s) = value (n * 10 + (c - 48)) s

value-digits : (fuel n : ℕ) (s : Str) → n < fuel → value 0 (digits fuel n s) ≡ value n s
unfolding digits
value-digits zero n s h = absurd (omega (arith, h))
value-digits (suc fuel) n s h = ground (arith, value-digits fuel (n / 10) ((48 + n % 10) ∷ s))

-- Every number is read back: the fuel is enough.
pub value-decimal : (n : ℕ) → value 0 (decimal n) ≡ n
unfolding decimal
value-decimal n = value-digits (suc n) n [] (omega arith)
