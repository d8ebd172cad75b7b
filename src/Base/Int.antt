-- ===== src/Base/Int.antt =====
-- Go's int and int32, as integers.
use Prim.Native.Nat.{ℕ, suc, ◌-◌, ◌%◌, ◌^◌}
use mathlib.Core.Bool.{Bool, false}
use mathlib.Core.List.{[], ◌∷◌}
use mathlib.Core.Option.{Option, none, some}
use hpktainer.Base.Tests.{◌==◌, ltb, if◌then◌else◌}
use hpktainer.Base.ByteStrings.{Bytes}
use hpktainer.Base.Decimal.{parse_magnitude, max_i64, format_uint}

-- `negsuc n` is -(n + 1).
pub data ℤ : Type 0 where
  pos : ℕ → ℤ
  negsuc : ℕ → ℤ

abbrev pub is_zero : ℤ → Bool
is_zero (pos n) = n == 0
is_zero (negsuc n) = false

-- The integer that 32 bits stand for.
abbrev signed32 : ℕ → ℤ
signed32 x = if ltb x (2 ^ 31) then pos x else negsuc (2 ^ 32 - 1 - x)

-- The conversion int32(x).
unfoldable pub int32 : ℤ → ℤ
int32 (pos n) = signed32 (n % 2 ^ 32)
int32 (negsuc n) = signed32 (2 ^ 32 - 1 - n % 2 ^ 32)

abbrev negated : ℕ → ℤ
negated n = if n == 0 then pos 0 else negsuc (n - 1)

-- strconv.Atoi on a 64-bit machine.
unfoldable pub atoi : Bytes → Option ℤ
atoi [] = none
atoi (c ∷ s) =
    if c == b'-'
    then elim (parse_magnitude (suc max_i64) s) [ none ↦ none | some n ↦ some (negated n) ]
    else elim (parse_magnitude max_i64 (if c == b'+' then s else c ∷ s)) [
      | none ↦ none
      | some n ↦ some (pos n)
    ]

-- strconv.Itoa.
unfoldable pub itoa : ℤ → Bytes
itoa (pos n) = format_uint n
itoa (negsuc n) = b'-' ∷ format_uint (suc n)
