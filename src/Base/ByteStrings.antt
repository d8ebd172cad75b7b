-- ===== src/Base/ByteStrings.antt =====
-- Go strings as lists of bytes, and the functions of package strings that the program calls.
use Prim.Native.Nat.{ℕ}
use Prim.Native.Char.{code}
use Prim.Native.String.{String}
use mathlib.Core.Path.{◌≡◌, refl}
use mathlib.Core.Logic.{◌↔◌, ◌≢◌}
use mathlib.Core.Bool.{Bool, true, false, ◌&&◌}
use mathlib.Core.List.{List, [], ◌∷◌}
use native.Mathlib.Omega.{arith}
use hpktainer.Base.Tests.{◌==◌}
use hpktainer.Base.Lists.{All}

abbrev pub Bytes : Type 0
Bytes = List ℕ

-- The bytes of an ASCII literal.
abbrev pub codes : String → Bytes
codes String.[] = []
codes (String.◌∷◌ c s) = code c ∷ codes s

abbrev pub Lacks : ℕ → Bytes → Type 0
Lacks b = All (λ c. c ≢ b)

-- `==` on strings.
unfoldable pub beq : Bytes → Bytes → Bool
beq [] [] = true
beq (a ∷ s) (b ∷ t) = a == b && beq s t
beq _ _ = false

pub beq_eq : (s t : Bytes) → beq s t ≡ true → s ≡ t
unfolding beq
beq_eq [] [] h = refl
beq_eq [] (b ∷ t) h = cc
beq_eq (a ∷ s) [] h = cc
beq_eq (a ∷ s) (b ∷ t) h = ground (arith, beq_eq s t)

pub beq_refl : (s : Bytes) → beq s s ≡ true
unfolding beq
beq_refl [] = refl
beq_refl (a ∷ s) = ground (arith, beq_refl s)

pub beq_iff : (s t : Bytes) → (beq s t ≡ true) ↔ (s ≡ t)
beq_iff s t = (beq_eq s t, λ e. ground (arith, beq_refl s))
