-- ===== src/Base/Decimal.antt =====
-- Decimal numbers: strconv.FormatUint, Itoa, ParseUint and Atoi.
use Prim.Native.Nat.{ℕ, zero, suc, ◌+◌, ◌-◌, ◌*◌, ◌/◌, ◌%◌, ◌^◌, ◌≤◌, ◌<◌}
use mathlib.Core.Path.{◌≡◌, refl, sym, ◌∙◌}
use mathlib.Core.Logic.{◌≢◌}
use mathlib.Core.Bool.{Bool, true, ◌&&◌}
use mathlib.Core.List.{[], ◌∷◌}
use mathlib.Core.Option.{Option, none, some}
use native.Mathlib.Omega.{arith}
use hpktainer.Base.Tests.{ltb, leb, if◌then◌else◌}
use hpktainer.Base.Lists.{All}
use hpktainer.Base.ByteStrings.{Bytes}

abbrev pub max_u64 : ℕ
max_u64 = 2 ^ 64 - 1

abbrev pub max_i64 : ℕ
max_i64 = 2 ^ 63 - 1

-- The digits of n in front of `out`; each round divides n by ten.
digits : ℕ → ℕ → Bytes → Bytes
digits zero n out = out
digits (suc fuel) n out =
    let rest = digits fuel (n / 10) ((b'0' + n % 10) ∷ out) in
    if ltb n 10 then (b'0' + n) ∷ out else rest

-- n + 1 rounds are more than the digits of n.
unfoldable pub format_uint : ℕ → Bytes
unfolding digits
format_uint n = digits (suc n) n []

abbrev pub is_digit : ℕ → Bool
is_digit c = leb b'0' c && leb c b'9'

-- The value of the digits behind `n`; `none` on another byte, and past the largest value.
unfoldable pub scan_digits : ℕ → ℕ → Bytes → Option ℕ
scan_digits largest n [] = some n
scan_digits largest n (c ∷ s) =
    let rest = scan_digits largest (n * 10 + (c - b'0')) s in
    if is_digit c then if ltb largest (n * 10 + (c - b'0')) then none else rest else none

-- strconv.ParseUint(s, 10, 64).
unfoldable pub parse_uint : Bytes → Option ℕ
unfolding scan_digits
parse_uint [] = none
parse_uint (c ∷ s) = scan_digits max_u64 0 (c ∷ s)

-- The digits of a number that strconv.Atoi reads behind its sign.
unfoldable pub parse_magnitude : ℕ → Bytes → Option ℕ
unfolding scan_digits
parse_magnitude largest [] = none
parse_magnitude largest (c ∷ s) = scan_digits largest 0 (c ∷ s)

scan-digits :
    (fuel largest n : ℕ) (out : Bytes)
    → n < fuel
    → n ≤ largest
    → scan_digits largest 0 (digits fuel n out) ≡ scan_digits largest n out
unfolding digits scan_digits
scan-digits zero largest n out h k = elim h [ ]
scan-digits (suc fuel) largest n out h k =
    ground (arith, scan-digits fuel largest (n / 10) ((b'0' + n % 10) ∷ out))

-- Every byte of a number is a digit.
abbrev pub Digits : Bytes → Type 0
Digits = All (λ c. is_digit c ≡ true)

digits-Digits : (fuel n : ℕ) (out : Bytes) → Digits out → Digits (digits fuel n out)
unfolding digits
digits-Digits zero n out h = h
digits-Digits (suc fuel) n out h =
    ground (arith, digits-Digits fuel (n / 10) ((b'0' + n % 10) ∷ out))

pub format_uint-Digits : (n : ℕ) → Digits (format_uint n)
unfolding format_uint
format_uint-Digits n = digits-Digits (suc n) n [] tt

digits-ne-nil : (fuel n : ℕ) (out : Bytes) → out ≢ [] → digits fuel n out ≢ []
unfolding digits
digits-ne-nil zero n out h = h
digits-ne-nil (suc fuel) n out h =
    ground (arith, digits-ne-nil fuel (n / 10) ((b'0' + n % 10) ∷ out))

pub format_uint-ne-nil : (n : ℕ) → format_uint n ≢ []
unfolding format_uint
format_uint-ne-nil n = ground (arith, digits-ne-nil n (n / 10) ((b'0' + n % 10) ∷ []))

parse_magnitude-scan :
    (largest : ℕ) (s : Bytes) → s ≢ [] → parse_magnitude largest s ≡ scan_digits largest 0 s
unfolding parse_magnitude
parse_magnitude-scan largest [] h = absurd (h refl)
parse_magnitude-scan largest (c ∷ s) h = refl

parse_uint-magnitude : (s : Bytes) → parse_uint s ≡ parse_magnitude max_u64 s
unfolding parse_uint parse_magnitude
parse_uint-magnitude [] = refl
parse_uint-magnitude (c ∷ s) = refl

scan_all : (largest n : ℕ) → n ≤ largest → scan_digits largest 0 (digits (suc n) n []) ≡ some n
unfolding scan_digits
scan_all largest n h = scan-digits (suc n) largest n [] (omega arith) h

pub parse_magnitude-format_uint :
    (largest n : ℕ) → n ≤ largest → parse_magnitude largest (format_uint n) ≡ some n
unfolding format_uint
parse_magnitude-format_uint largest n h =
    parse_magnitude-scan largest (format_uint n) (format_uint-ne-nil n) ∙ scan_all largest n h

pub parse_uint-format_uint : (n : ℕ) → n ≤ max_u64 → parse_uint (format_uint n) ≡ some n
parse_uint-format_uint n h =
    parse_uint-magnitude (format_uint n) ∙ parse_magnitude-format_uint max_u64 n h

scan_digits-le :
    (largest n r : ℕ) (s : Bytes) → n ≤ largest → scan_digits largest n s ≡ some r → r ≤ largest
unfolding scan_digits
scan_digits-le largest n r [] h e = ground arith
scan_digits-le largest n r (c ∷ s) h e =
    ground (arith, scan_digits-le largest (n * 10 + (c - b'0')) r s)

-- A number that is read lies in the range.
pub parse_magnitude-le :
    (largest r : ℕ) (s : Bytes) → parse_magnitude largest s ≡ some r → r ≤ largest
unfolding parse_magnitude
parse_magnitude-le largest r [] e = ground arith
parse_magnitude-le largest r (c ∷ s) e = scan_digits-le largest 0 r (c ∷ s) (omega arith) e

pub parse_uint-le : (r : ℕ) (s : Bytes) → parse_uint s ≡ some r → r ≤ max_u64
parse_uint-le r s e = parse_magnitude-le max_u64 r s (sym (parse_uint-magnitude s) ∙ e)
