-- ===== src/Base/Text.antt =====
-- The functions of package strings that the program calls, on bytes. White space is ASCII.
use Prim.Native.Nat.{ℕ, ◌+◌, ◌/◌, ◌%◌}
use mathlib.Core.Path.{◌≡◌, refl}
use mathlib.Core.Logic.{◌≢◌, inl, inr}
use mathlib.Core.Bool.{Bool, true, false, ◌&&◌, ◌||◌}
use mathlib.Core.List.{List, [], ◌∷◌, ◌++◌, reverse, reverse-append, reverse-reverse}
use mathlib.Core.Option.{Option, none, some}
use native.Mathlib.Omega.{arith}
use hpktainer.Base.Tests.{◌==◌, leb, ltb, if◌then◌else◌, Bool-cases}
use hpktainer.Base.Lists.{All}
use hpktainer.Base.ByteStrings.{Bytes, Lacks}

abbrev pub is_space : ℕ → Bool
is_space c = c == 32 || (leb 9 c && leb c 13)

unfoldable pub trim_left : Bytes → Bytes
trim_left [] = []
trim_left (c ∷ s) = if is_space c then trim_left s else c ∷ s

-- strings.TrimSpace.
unfoldable pub trim_space : Bytes → Bytes
unfolding trim_left
trim_space s = reverse (trim_left (reverse (trim_left s)))

unfoldable pub has_prefix : Bytes → Bytes → Bool
has_prefix s [] = true
has_prefix [] (p ∷ prefix) = false
has_prefix (c ∷ s) (p ∷ prefix) = c == p && has_prefix s prefix

-- strings.Contains.
unfoldable pub contains : Bytes → Bytes → Bool
unfolding has_prefix
contains [] sub = has_prefix [] sub
contains (c ∷ s) sub = has_prefix (c ∷ s) sub || contains s sub

-- What stands behind the prefix, if the text begins with it.
unfoldable pub cut_prefix : Bytes → Bytes → Option Bytes
cut_prefix s [] = some s
cut_prefix [] (p ∷ prefix) = none
cut_prefix (c ∷ s) (p ∷ prefix) = if c == p then cut_prefix s prefix else none

-- strings.TrimPrefix.
unfoldable pub trim_prefix : Bytes → Bytes → Bytes
unfolding cut_prefix
trim_prefix s prefix = elim (cut_prefix s prefix) [ none ↦ s | some rest ↦ rest ]

abbrev push : ℕ → List Bytes → List Bytes
push c [] = (c ∷ []) ∷ []
push c (part ∷ parts) = (c ∷ part) ∷ parts

-- strings.Split with a separator of one byte.
unfoldable pub split : Bytes → ℕ → List Bytes
split [] sep = [] ∷ []
split (c ∷ s) sep = let parts = split s sep in if c == sep then [] ∷ parts else push c parts

-- The bytes behind the last occurrence of a byte: s[strings.LastIndexByte(s, c)+1:].
unfoldable pub after_last : ℕ → Bytes → Option Bytes
after_last c [] = none
after_last c (x ∷ s) = elim (after_last c s) [
  | some rest ↦ some rest
  | none ↦ if x == c then some s else none
]

-- strings.Fields.
unfoldable pub fields : Bytes → List Bytes
fields [] = []
fields (c ∷ []) = if is_space c then [] else (c ∷ []) ∷ []
fields (c ∷ d ∷ s) =
    let rest = fields (d ∷ s) in
    if is_space c then rest else if is_space d then (c ∷ []) ∷ rest else push c rest

-- strings.Join with a separator of one byte.
unfoldable pub join : List Bytes → ℕ → Bytes
join [] sep = []
join (p ∷ []) sep = p
join (p ∷ q ∷ ps) sep = p ++ sep ∷ join (q ∷ ps) sep

pub append-cons-ne-nil : (s : Bytes) (c : ℕ) (t : Bytes) → s ++ c ∷ t ≢ []
append-cons-ne-nil [] c t e = cc
append-cons-ne-nil (d ∷ s) c t e = cc

pub cut_prefix-append : (p s : Bytes) → cut_prefix (p ++ s) p ≡ some s
unfolding cut_prefix
cut_prefix-append [] s = refl
cut_prefix-append (c ∷ p) s = ground (arith, cut_prefix-append p s)

has_prefix-append : (p s : Bytes) → has_prefix (p ++ s) p ≡ true
unfolding has_prefix
has_prefix-append [] s = refl
has_prefix-append (c ∷ p) s = ground (arith, has_prefix-append p s)

pub contains-middle : (before sub after : Bytes) → contains (before ++ (sub ++ after)) sub ≡ true
unfolding contains has_prefix
contains-middle [] [] [] = refl
contains-middle [] [] (c ∷ after) = refl
contains-middle [] (c ∷ sub) after = ground (arith, has_prefix-append (c ∷ sub) after)
contains-middle (c ∷ before) sub after = ground (arith, contains-middle before sub after)

pub split-Lacks : (s : Bytes) (sep : ℕ) → Lacks sep s → split s sep ≡ s ∷ []
unfolding split
split-Lacks [] sep l = refl
split-Lacks (c ∷ s) sep l = ground (arith, split-Lacks s sep l.1)

pub split-append :
    (s t : Bytes) (sep : ℕ) → Lacks sep s → split (s ++ sep ∷ t) sep ≡ s ∷ split t sep
unfolding split
split-append [] t sep l = ground arith
split-append (c ∷ s) t sep l = ground (arith, split-append s t sep l.1)

-- No byte of the text is white space.
abbrev pub Solid : Bytes → Type 0
Solid = All (λ c. is_space c ≡ false)

trim_left-Solid : (s : Bytes) → Solid s → trim_left s ≡ s
unfolding trim_left
trim_left-Solid [] h = refl
trim_left-Solid (c ∷ s) h = rw h.0

Solid-append : (s t : Bytes) → Solid s → Solid t → Solid (s ++ t)
Solid-append [] t h k = k
Solid-append (c ∷ s) t h k = (h.0, Solid-append s t h.1 k)

Solid-reverse : (s : Bytes) → Solid s → Solid (reverse s)
Solid-reverse [] h = tt
Solid-reverse (c ∷ s) h =
    rw (reverse-append (c ∷ []) s)
      (Solid-append (reverse s) (c ∷ []) (Solid-reverse s h.1) (h.0, tt))

pub trim_space-Solid : (s : Bytes) → Solid s → trim_space s ≡ s
unfolding trim_space
trim_space-Solid s h =
    rw (trim_left-Solid s h, trim_left-Solid (reverse s) (Solid-reverse s h)) (reverse-reverse s)

-- string(c) for a byte c: the rune of that number, in UTF-8.
unfoldable pub rune_text : ℕ → Bytes
rune_text c = if ltb c 128 then c ∷ [] else (192 + c / 64) ∷ (128 + c % 64) ∷ []

split-cons : (s : Bytes) (sep : ℕ) → (p : Bytes) × ((ps : List Bytes) × (split s sep ≡ p ∷ ps))
unfolding split
split-cons [] sep = ([], ([], refl))
split-cons (c ∷ s) sep = elim (Bool-cases (c == sep)) [
  | inl e ↦ ([], (split s sep, rw e refl))
  | inr e ↦ let (p, (ps, h)) = split-cons s sep in (c ∷ p, (ps, rw (e, h) refl))
]

join-push :
    (c : ℕ) (p : Bytes) (ps : List Bytes) (sep : ℕ)
    → join (push c (p ∷ ps)) sep ≡ c ∷ join (p ∷ ps) sep
unfolding join
join-push c p [] sep = refl
join-push c p (q ∷ ps) sep = refl

join-nil :
    (p : Bytes) (ps : List Bytes) (sep : ℕ) → join ([] ∷ p ∷ ps) sep ≡ sep ∷ join (p ∷ ps) sep
unfolding join
join-nil p ps sep = refl

-- The parts, joined again, are the text.
pub join-split : (s : Bytes) (sep : ℕ) → join (split s sep) sep ≡ s
unfolding split
join-split [] sep = unfold join in refl
join-split (c ∷ s) sep =
    let (p, (ps, h)) = split-cons s sep in
    let rest = join-split s sep in ground (arith, h, rest, join-push c p ps sep, join-nil p ps sep)

push-Lacks :
    (c : ℕ) (parts : List Bytes) (sep : ℕ)
    → c ≢ sep
    → All (Lacks sep) parts
    → All (Lacks sep) (push c parts)
push-Lacks c [] sep n a = ((n, tt), tt)
push-Lacks c (p ∷ ps) sep n a = ((n, a.0), a.1)

-- No part contains the separator.
pub split-All : (s : Bytes) (sep : ℕ) → All (Lacks sep) (split s sep)
unfolding split
split-All [] sep = (tt, tt)
split-All (c ∷ s) sep = elim (Bool-cases (c == sep)) [
  | inl e ↦ rw e (tt, split-All s sep)
  | inr e ↦ rw e (push-Lacks c (split s sep) sep (ground arith) (split-All s sep))
]
