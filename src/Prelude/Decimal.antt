-- ===== src/Prelude/Decimal.antt =====
-- `format!("{n}")` of an unsigned integer. Twenty digits hold every `u64`.
use Prim.Native.Nat.{ℕ, zero, suc, ◌+◌, ◌/◌, ◌%◌}
use mathlib.Core.List.{[], ◌∷◌, ◌++◌}
use btelem.Prelude.Tests.{ltb, if◌then◌else◌}
use btelem.Prelude.Bytes.{Text}

unfoldable pub digits_from : ℕ → ℕ → Text
digits_from zero n = []
digits_from (suc fuel) n =
    let rest = digits_from fuel (n / 10) in
    if ltb n 10 then (b'0' + n) ∷ [] else rest ++ ((b'0' + n % 10) ∷ [])

unfoldable pub decimal : ℕ → Text
unfolding digits_from
decimal n = digits_from 20 n
