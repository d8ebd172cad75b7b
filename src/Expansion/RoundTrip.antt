-- ===== src/Expansion/RoundTrip.antt =====
-- Escaped text and references under Expand of pkg/expansion/expand.go.
use hpktainer.Base.{
  ◌≡◌, refl, Bytes, [], ◌∷◌, ◌++◌, append_assoc, some, Lacks, arith, ◌==◌, if◌then◌else◌,
  Bool-cases, ==_iff, inl, inr,
}
use hpktainer.Expansion.{expand, syntax_wrap}
use hpktainer.Expansion.Reference.{Expands}
use hpktainer.Expansion.Equivalence.{expand_sound}
use hpktainer.Expansion.Unique.{Expands-unique}

-- Every operator doubled.
pub escape : Bytes → Bytes
escape [] = []
escape (c ∷ r) = if c == b'$' then b'$' ∷ b'$' ∷ escape r else c ∷ escape r

module _ {S : Type 0} (mapping : S → Bytes → Bytes × S) where
  -- If the rules expand the input, from state s, to o and leave the state s', then Expand returns
  -- exactly that.
  pub expand_complete :
      (input o : Bytes) (s s' : S)
      → Expands mapping s input o s'
      → expand mapping input s ≡ some (o, s')
  expand_complete input o s s' x =
      let (o2, s2, e, y) = expand_sound mapping input s in
      let (p, q) = Expands-unique x refl refl y in rw (p, q) e

  escape-Expands : (text : Bytes) (s : S) → Expands mapping s (escape text) text s
  unfolding escape
  escape-Expands [] s = Expands.empty
  escape-Expands (c ∷ r) s = elim (Bool-cases (c == b'$')) [
    | inl e ↦ rw ((==_iff c b'$').0 e) (Expands.escaped (escape-Expands r s))
    | inr e ↦ rw e (Expands.plain c (ground arith) (escape-Expands r s))
  ]

  -- A text whose operators are doubled is expanded to itself, whatever the mapping; the mapping is
  -- not called, so its state stays.
  pub expand-escape : (text : Bytes) (s : S) → expand mapping (escape text) s ≡ some (text, s)
  expand-escape text s = expand_complete (escape text) text s s (escape-Expands text s)

  lacking : (text : Bytes) (s : S) → Lacks b'$' text → Expands mapping s text text s
  lacking [] s l = Expands.empty
  lacking (c ∷ r) s l = Expands.plain c l.0 (lacking r s l.1)

  -- A wrapped name without a closer, followed by any text without operators, is replaced by the
  -- mapping's value, and the text behind it stays.
  pub expand-syntax_wrap :
      (name rest : Bytes) (s : S)
      → Lacks b')' name
      → Lacks b'$' rest
      → expand mapping (syntax_wrap name ++ rest) s
        ≡ some ((mapping s name).0 ++ rest, (mapping s name).1)
  unfolding syntax_wrap
  expand-syntax_wrap name rest s l n =
      expand_complete _ _ s (mapping s name).1
        (Expands.reference name l refl (lacking rest _ n) (append_assoc name (b')' ∷ []) rest))
