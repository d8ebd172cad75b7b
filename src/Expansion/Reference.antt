-- ===== src/Expansion/Reference.antt =====
-- The expansion rules of pkg/expansion/expand.go as a relation between a text and its expansion.
use hpktainer.Base.{ℕ, Bytes, [], ◌∷◌, ◌++◌, ◌≢◌, ◌≡◌, Lacks, rune_text}

-- One rule for each form of text. A byte behind an operator that starts no reference is written as the
-- rune of that number, in UTF-8: two bytes from 128 on. `Expands mapping s input output s'`: the state goes from s to s'.
pub data Expands {S : Type 0} (mapping : S → Bytes → Bytes × S)
    : S → Bytes → Bytes → S → Type 0 where
  empty : {s : S} → Expands mapping s [] [] s
  plain :
      {s s' : S} {r o : Bytes} (c : ℕ)
      → c ≢ b'$'
      → Expands mapping s r o s'
      → Expands mapping s (c ∷ r) (c ∷ o) s'
  trailing : {s : S} → Expands mapping s (b'$' ∷ []) (b'$' ∷ []) s
  escaped :
      {s s' : S} {r o : Bytes}
      → Expands mapping s r o s'
      → Expands mapping s (b'$' ∷ b'$' ∷ r) (b'$' ∷ o) s'
  reference :
      {s t s' : S} {r o value i : Bytes} (name : Bytes)
      → Lacks b')' name
      → mapping s name ≡ (value, t)
      → Expands mapping t r o s'
      → i ≡ name ++ b')' ∷ r
      → Expands mapping s (b'$' ∷ b'(' ∷ i) (value ++ o) s'
  unclosed :
      {s s' : S} {r o : Bytes}
      → Lacks b')' r
      → Expands mapping s r o s'
      → Expands mapping s (b'$' ∷ b'(' ∷ r) (b'$' ∷ b'(' ∷ o) s'
  other :
      {s s' : S} {r o : Bytes} (c : ℕ)
      → c ≢ b'$'
      → c ≢ b'('
      → Expands mapping s r o s'
      → Expands mapping s (b'$' ∷ c ∷ r) (b'$' ∷ (rune_text c ++ o)) s'
