-- ===== src/Prelude/Decimal.antt =====
-- Decimal text: `std::to_string` of an unsigned value, and the digits that it writes.
use network_arc_rajasurya.Prelude.Tests.{ltb, within, if◌then◌else◌}
use network_arc_rajasurya.Prelude.Strings.{Bytes}
use Prim.Native.Nat.{ℕ, zero, suc, ◌+◌, ◌/◌, ◌%◌}
use mathlib.Core.Bool.{Bool}
use mathlib.Core.List.{[], ◌∷◌}

unfoldable pub is_digit : ℕ → Bool
is_digit = within b'0' b'9'

-- The last digit is written first, in front of those already written.
unfoldable pub digits_onto : ℕ → ℕ → Bytes → Bytes
digits_onto zero n out = out
digits_onto (suc fuel) n out =
    let rest = digits_onto fuel (n / 10) ((b'0' + n % 10) ∷ out) in
    if ltb n 10 then (b'0' + n) ∷ out else rest

-- A number has no more digits than its value plus one.
unfoldable pub to_string : ℕ → Bytes
unfolding digits_onto
to_string n = digits_onto (suc n) n []
