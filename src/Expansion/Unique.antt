-- ===== src/Expansion/Unique.antt =====
-- The rules of Reference give a text at most one expansion.
use hpktainer.Base.{
  ℕ, ◌≡◌, ◌≢◌, refl, ap, Bytes, [], ◌∷◌, ◌++◌, Lacks, arith, Bool, true, false, if◌then◌else◌, ◌==◌,
}
use hpktainer.Expansion.Reference.{Expands}

-- The first closer splits a text in one way.
Lacks-closed : (a r : Bytes) → Lacks b')' (a ++ b')' ∷ r) → ⊥
Lacks-closed [] r h = h.0 refl
Lacks-closed (c ∷ a) r h = Lacks-closed a r h.1

closed_unique :
    (a b r t : Bytes)
    → Lacks b')' a
    → Lacks b')' b
    → a ++ b')' ∷ r ≡ b ++ b')' ∷ t
    → (a ≡ b) × (r ≡ t)
closed_unique [] [] r t la lb e = (refl, cc)
closed_unique [] (d ∷ b) r t la lb e = absurd (ground arith)
closed_unique (c ∷ a) [] r t la lb e = absurd (ground arith)
closed_unique (c ∷ a) (d ∷ b) r t la lb e =
    let p : a ++ b')' ∷ r ≡ b ++ b')' ∷ t = cc in
    let (q, u) = closed_unique a b r t la.1 lb.1 p in (cc, u)

has_closer : Bytes → Bool
has_closer [] = false
has_closer (c ∷ r) = if c == b')' then true else has_closer r

has_closer-closed : (a r : Bytes) → has_closer (a ++ b')' ∷ r) ≡ true
unfolding has_closer
has_closer-closed [] r = refl
has_closer-closed (c ∷ a) r = ground (arith, has_closer-closed a r)

has_closer-Lacks : (r : Bytes) → Lacks b')' r → has_closer r ≡ false
unfolding has_closer
has_closer-Lacks [] l = refl
has_closer-Lacks (c ∷ r) l = ground (arith, has_closer-Lacks r)

-- The number of the rule that fits a text.
form : Bytes → ℕ
form [] = 0
form (c ∷ []) = if c == b'$' then 2 else 1
form (c ∷ d ∷ r) =
    if c == b'$'
    then if d == b'$' then 3 else if d == b'(' then if has_closer r then 4 else 5 else 6
    else 1

form-plain : (c : ℕ) (r : Bytes) → c ≢ b'$' → form (c ∷ r) ≡ 1
unfolding form
form-plain c [] h = ground arith
form-plain c (d ∷ r) h = ground arith

module _ {S : Type 0} {mapping : S → Bytes → Bytes × S} where
  abbrev rule : {s s' : S} {i o : Bytes} → Expands mapping s i o s' → ℕ
  rule Expands.empty = 0
  rule (Expands.plain c n d) = 1
  rule Expands.trailing = 2
  rule (Expands.escaped d) = 3
  rule (Expands.reference n l m d q) = 4
  rule (Expands.unclosed l d) = 5
  rule (Expands.other c n m d) = 6

  form-rule : {s s' : S} {i o : Bytes} (x : Expands mapping s i o s') → form i ≡ rule x
  unfolding form
  form-rule Expands.empty = refl
  form-rule (Expands.plain {r = r} c n d) = form-plain c r n
  form-rule Expands.trailing = refl
  form-rule (Expands.escaped d) = refl
  form-rule (Expands.reference {r = r} n l m d q) = rw (q, has_closer-closed n r)
  form-rule (Expands.unclosed {r = r} l d) = rw (has_closer-Lacks r l)
  form-rule (Expands.other c n m d) = ground arith

  pub Expands-unique :
      {s t s1 s2 : S} {i j o1 o2 : Bytes}
      → Expands mapping s i o1 s1
      → s ≡ t
      → i ≡ j
      → Expands mapping t j o2 s2
      → (o1 ≡ o2) × (s1 ≡ s2)
  Expands-unique Expands.empty u e Expands.empty = (refl, u)
  Expands-unique (Expands.plain {r = r} c n d) u e (Expands.plain {r = r'} c' n' d') =
      let t : r ≡ r' = cc in let (p, q) = Expands-unique d u t d' in (cc, q)
  Expands-unique Expands.trailing u e Expands.trailing = (refl, u)
  Expands-unique (Expands.escaped {r = r} d) u e (Expands.escaped {r = r'} d') =
      let t : r ≡ r' = cc in let (p, q) = Expands-unique d u t d' in (cc, q)
  Expands-unique (Expands.other {r = r} c n m d) u e (Expands.other {r = r'} c' n' m' d') =
      let t : r ≡ r' = cc in let (p, q) = Expands-unique d u t d' in (cc, q)
  Expands-unique (Expands.unclosed {r = r} l d) u e (Expands.unclosed {r = r'} l' d') =
      let t : r ≡ r' = cc in let (p, q) = Expands-unique d u t d' in (cc, q)
  Expands-unique (Expands.reference {t = t1} {r = r} {value = v1} a l m d x) u e
        (Expands.reference {t = t2} {r = r'} {value = v2} b l' m' d' y) =
      let w : a ++ b')' ∷ r ≡ b ++ b')' ∷ r' = cc in
      let (f, g) = closed_unique a b r r' l l' w in
      let z : (v1 ≡ v2) × (t1 ≡ t2) = ground arith in
      let (p, q) = Expands-unique d z.1 g d' in (cc, q)
  Expands-unique x u e y = absurd (ground (arith, form-rule x, form-rule y, ap form e))
