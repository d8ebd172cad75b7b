-- ===== src/Expansion.antt =====
-- pkg/expansion/expand.go: expansion of `$(VAR)` references, and its callers in
-- pkg/container/helpers.go (child module Callers).
-- A mapping may have effects (the callback of ExpandContainerVolumeMounts records missing keys), so
-- it passes a state of type S along. `none` is a run-time panic or an exhausted loop bound.
mod Reference
mod View
mod Equivalence
mod Unique
mod RoundTrip
pub mod Callers
mod Examples
use hpktainer.Base.{
  ℕ, zero, suc, ◌+◌, Bool, true, false, Option, none, some, [], ◌∷◌, ◌++◌, Bytes, length, get_elem?,
  drop, slice, ltb, ◌==◌, if◌then◌else◌, rune_text,
}

abbrev pub operator : ℕ
operator = b'$'

abbrev pub reference_opener : ℕ
reference_opener = b'('

abbrev pub reference_closer : ℕ
reference_closer = b')'

unfoldable pub syntax_wrap : Bytes → Bytes
syntax_wrap input = operator ∷ reference_opener ∷ (input ++ reference_closer ∷ [])

-- `for i := 1; i < len(input); i++`: the first closer, and its index counted from `i`.
scan_closer : Bytes → ℕ → Option ℕ
scan_closer [] i = none
scan_closer (c ∷ rest) i = if c == reference_closer then some i else scan_closer rest (suc i)

-- The name read, or the incomplete reference.
read_reference : Bytes → Option ℕ → Bytes × Bool × ℕ
read_reference input (some i) = (slice 1 i input, true, i + 1)
read_reference input none = (operator ∷ reference_opener ∷ [], false, 1)

-- What was read, whether it names a variable, and the number of bytes consumed; `input[0]` panics
-- on an empty input.
pub try_read_variable_name : Bytes → Option (Bytes × Bool × ℕ)
unfolding read_reference scan_closer
try_read_variable_name [] = none
try_read_variable_name (c ∷ rest) = some (
    if c == operator
    then (c ∷ [], false, 1)
    else if c == reference_opener
    then read_reference (c ∷ rest) (scan_closer rest 1)
    else (operator ∷ rune_text c, false, 1))

-- `input[cursor] == operator && cursor+1 < len(input)`.
at_reference : Bytes → ℕ → Bool
at_reference input cursor = elim (get_elem? input cursor) [
  | none ↦ false
  | some c ↦ if c == operator then ltb (cursor + 1) (length input) else false
]

module _ {S : Type 0} (mapping : S → Bytes → Bytes × S) where
  -- What is written for a variable or for other text.
  resolve : S → Bytes → Bool → Bytes × S
  resolve s read true = mapping s read
  resolve s read false = (read, s)

  -- The loop over `cursor`, with the bytes written so far and the checkpoint.
  expand_loop : ℕ → Bytes → S → Bytes → ℕ → ℕ → Option (Bytes × S)
  unfolding at_reference try_read_variable_name resolve
  expand_loop zero input s buf checkpoint cursor = none
  expand_loop (suc fuel) input s buf checkpoint cursor = elim (ltb cursor (length input)) [
    | false ↦ some (buf ++ drop checkpoint input, s)
    | true ↦ elim (at_reference input cursor) [
      | false ↦ expand_loop fuel input s buf checkpoint (cursor + 1)
      | true ↦ elim (try_read_variable_name (drop (cursor + 1) input)) [
        | none ↦ none
        | some (read, is_var, advance) ↦
            let (value, s') = resolve s read is_var in
            expand_loop fuel input s' ((buf ++ slice checkpoint cursor input) ++ value)
              (cursor + advance + 1) (cursor + advance + 1)
      ]
    ]
  ]

  -- Each round moves the cursor on, so one round more than there are bytes is enough.
  pub expand : Bytes → S → Option (Bytes × S)
  unfolding expand_loop
  expand input s = expand_loop (suc (length input)) input s [] 0 0
