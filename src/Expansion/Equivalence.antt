-- ===== src/Expansion/Equivalence.antt =====
-- The loop of Expand in pkg/expansion/expand.go against the rules of Reference.
use hpktainer.Base.{
  ℕ, zero, suc, ◌+◌, ◌-◌, ◌<◌, ◌≡◌, ◌⊎◌, inl, inr, refl, sym, ap, ◌∙◌, Bool, true, false, none,
  some, [], ◌∷◌, ◌++◌, append-nil, append_assoc, Bytes, Lacks, length, drop, take, slice, ltb, ◌==◌,
  if◌then◌else◌, arith, Bool-cases, ==_iff, drop-suc-length, get_elem?-drop, length-drop,
  take-length, rune_text,
}
use native.Mathlib.Numerals.{sub-one}
use hpktainer.Expansion.{
  scan_closer, read_reference, try_read_variable_name, at_reference, resolve, expand_loop, expand,
}
use hpktainer.Expansion.View.{View, View-length, View-next, View-jump, View-tail}
use hpktainer.Expansion.Reference.{Expands}

-- The closer is the first one, or there is none.
scan_closer_lem :
    (r : Bytes) (k : ℕ)
    → ((scan_closer r k ≡ none) × Lacks b')' r)
      ⊎ ((name : Bytes) × (tail : Bytes) × (scan_closer r k ≡ some (k + length name))
          × Lacks b')' name
          × (r ≡ name ++ b')' ∷ tail))
unfolding scan_closer
scan_closer_lem [] k = inl (refl, tt)
scan_closer_lem (c ∷ r) k = elim (Bool-cases (c == b')')) [
  | inl e ↦ inr ([], r, rw e (ground arith), tt, ground arith)
  | inr e ↦ elim (scan_closer_lem r (suc k)) [
    | inl (n, l) ↦ inl (rw e n, (ground arith, l))
    | inr (name, tail, p, l, q) ↦
        inr
          (c ∷ name, tail, rw e (ground (arith, p)), (ground arith, l), ap (λ (x : Bytes). c ∷ x) q)
  ]
]

module _ {S : Type 0} (mapping : S → Bytes → Bytes × S) where
  -- What follows an operator is read as one of the rules says.
  Reading : S → ℕ → Bytes → Type 0
  Reading s c rest =
      (read : Bytes) × (is_var : Bool) × (advance : ℕ) × (try_read_variable_name (c ∷ rest)
        ≡ some (read, is_var, suc advance))
      × ((o : Bytes) (s' : S)
          → Expands mapping (resolve mapping s read is_var).1 (drop advance rest) o s'
          → Expands mapping s (b'$' ∷ c ∷ rest) ((resolve mapping s read is_var).0 ++ o) s')

  -- A closed reference, whose closer stands at index `i` of the text behind the operator.
  Reading-name :
      (s : S) (name tail rest : Bytes) (i : ℕ)
      → Lacks b')' name
      → rest ≡ name ++ b')' ∷ tail
      → i ≡ suc (length name)
      → scan_closer rest 1 ≡ some i
      → Reading s b'(' rest
  unfolding try_read_variable_name read_reference resolve Reading
  Reading-name s name tail rest i l e n h =
      let q : take (i - 1) rest ≡ name = rw (e, n, sub-one) (take-length name (b')' ∷ tail)) in
      let p : drop i rest ≡ tail = rw (e, n) (drop-suc-length name b')' tail) in
      (
        name,
        true,
        i,
        rw h (ground (arith, q)),
        λ o s' d. Expands.reference name l refl (rw p at d) e,
      )

  reading : (s : S) (c : ℕ) (rest : Bytes) → Reading s c rest
  unfolding try_read_variable_name read_reference resolve Reading
  reading s c rest = elim (Bool-cases (c == b'$')) [
    | inl e ↦ (c ∷ [], false, 0, rw e, λ o s' d. rw ((==_iff c b'$').0 e) (Expands.escaped d))
    | inr e ↦ elim (Bool-cases (c == b'(')) [
      | inl f ↦ rw ((==_iff c b'(').0 f) (elim (scan_closer_lem rest 1) [
        | inl (n, l) ↦ (b'$' ∷ b'(' ∷ [], false, 0, rw n, λ o s' d. Expands.unclosed l d)
        | inr (name, tail, p, l, q) ↦
            Reading-name s name tail rest (1 + length name) l q (omega arith) p
      ])
      | inr f ↦ (
        b'$' ∷ rune_text c,
        false,
        0,
        rw (e, f),
        λ o s' d. Expands.other c (ground arith) (ground arith) d,
      )
    ]
  ]

  at_reference_lem :
      (input : Bytes) (cur c : ℕ) (suf : Bytes)
      → drop cur input ≡ c ∷ suf
      → at_reference input cur ≡ (if c == b'$' then ltb 0 (length suf) else false)
  unfolding at_reference
  at_reference_lem input cur c suf h =
      ground (arith, get_elem?-drop cur input, ap length h, length-drop cur input)

  -- The three ways of one round.
  module _ (fuel : ℕ) (input : Bytes) (s : S) (buf : Bytes) (cp cur : ℕ) where
    loop_end :
        ltb cur (length input) ≡ false
        → expand_loop mapping (suc fuel) input s buf cp cur ≡ some (buf ++ drop cp input, s)
    unfolding expand_loop
    loop_end e = ground arith

    loop_copy :
        ltb cur (length input) ≡ true
        → at_reference input cur ≡ false
        → expand_loop mapping (suc fuel) input s buf cp cur
          ≡ expand_loop mapping fuel input s buf cp (cur + 1)
    unfolding expand_loop
    loop_copy e f = ground arith

    loop_read :
        (read : Bytes) (is_var : Bool) (advance : ℕ)
        → ltb cur (length input) ≡ true
        → at_reference input cur ≡ true
        → try_read_variable_name (drop (cur + 1) input) ≡ some (read, is_var, advance)
        → expand_loop mapping (suc fuel) input s buf cp cur
          ≡ expand_loop mapping fuel input
              (resolve mapping s read is_var).1
              ((buf ++ slice cp cur input) ++ (resolve mapping s read is_var).0)
              (cur + advance + 1)
              (cur + advance + 1)
    unfolding expand_loop
    loop_read read is_var advance e f g = ground arith

  Expands-nil : {s s' : S} {i o : Bytes} → Expands mapping s i o s' → i ≡ [] → (o ≡ []) × (s ≡ s')
  Expands-nil Expands.empty e = (refl, refl)
  Expands-nil (Expands.plain c n d) e = absurd (cc)
  Expands-nil Expands.trailing e = absurd (cc)
  Expands-nil (Expands.escaped d) e = absurd (cc)
  Expands-nil (Expands.reference n l m d q) e = absurd (cc)
  Expands-nil (Expands.unclosed l d) e = absurd (cc)
  Expands-nil (Expands.other c n m d) e = absurd (cc)

  Runs : ℕ → Bytes → S → Bytes → ℕ → ℕ → Bytes → Bytes → Type 0
  Runs fuel input s buf checkpoint cursor pend suf =
      (o : Bytes) × (s' : S) × (expand_loop mapping fuel input s buf checkpoint cursor
        ≡ some ((buf ++ pend) ++ o, s'))
      × Expands mapping s suf o s'

  copied :
      {s s' : S} {o : Bytes} (c : ℕ) (suf : Bytes)
      → (if c == b'$' then ltb 0 (length suf) else false) ≡ false
      → Expands mapping s suf o s'
      → Expands mapping s (c ∷ suf) (c ∷ o) s'
  copied {s} {s'} c [] e x = elim (Bool-cases (c == b'$')) [
    | inl f ↦ let (n, p) = Expands-nil x refl in rw ((==_iff c b'$').0 f, n, ← p) Expands.trailing
    | inr f ↦ Expands.plain c (ground arith) x
  ]
  copied c (d ∷ r) e x = Expands.plain c (ground arith) x

  -- A round that reads behind an operator, and the rest of the run.
  loop_reads :
      (fuel : ℕ) (input : Bytes) (s : S) (buf : Bytes) (cp cur : ℕ) (pend : Bytes) (c : ℕ)
      (suf : Bytes)
      → length (c ∷ suf) < suc fuel
      → View input cp cur pend (c ∷ suf)
      → at_reference input cur ≡ true
      → ((input : Bytes) (s : S) (buf : Bytes) (cp cur : ℕ) (pend suf : Bytes)
          → length suf < fuel
          → View input cp cur pend suf
          → Runs fuel input s buf cp cur pend suf)
      → Runs (suc fuel) input s buf cp cur pend (c ∷ suf)
  unfolding Runs Reading
  loop_reads fuel input s buf cp cur pend c [] h v e rec =
      absurd (ground (arith, at_reference_lem input cur c [] (View.rest v)))
  loop_reads fuel input s buf cp cur pend c (d ∷ r) h v e rec =
      let (read, is_var, advance, p, back) = reading s d r in
      let (value, s1) = resolve mapping s read is_var in
      let v' = View-jump (suc (suc advance)) v in
      let (o, s', q, x) =
        rec input s1 ((buf ++ pend) ++ value) (cur + suc (suc advance)) (cur + suc (suc advance)) []
          (drop advance r) (omega (arith, length-drop advance r)) v' in
      (
        value ++ o,
        s',
        loop_read fuel input s buf cp cur read is_var (suc advance) (ground (arith, View-length v))
              e (ap try_read_variable_name (View.rest (View-next v)) ∙ p)
            ∙ (let g : cur + suc advance + 1 ≡ cur + suc (suc advance) = omega arith in
                rw (g, View.pending v) (q ∙ simp (append-nil, append_assoc))),
        (let g : c ≡ b'$' = ground (arith, at_reference_lem input cur c (d ∷ r) (View.rest v)) in
            rw g (back o s' x)),
      )

  loop-Runs :
      (fuel : ℕ) (input : Bytes) (s : S) (buf : Bytes) (checkpoint cursor : ℕ) (pend suf : Bytes)
      → length suf < fuel
      → View input checkpoint cursor pend suf
      → Runs fuel input s buf checkpoint cursor pend suf
  unfolding Runs
  loop-Runs zero input s buf cp cur pend suf h v = elim h [ ]
  loop-Runs (suc fuel) input s buf cp cur pend [] h v = (
    [],
    s,
    loop_end fuel input s buf cp cur (ground (arith, View-length v))
        ∙ (rw (View-tail v, append-nil, append-nil)),
    Expands.empty,
  )
  loop-Runs (suc fuel) input s buf cp cur pend (c ∷ suf) h v =
      elim (Bool-cases (at_reference input cur)) [
        | inl e ↦ loop_reads fuel input s buf cp cur pend c suf h v e (loop-Runs fuel)
        | inr e ↦
            let (o, s', p, d) =
              loop-Runs fuel input s buf cp (cur + 1) (pend ++ c ∷ []) suf (omega arith)
                (View-next v) in
            (
              c ∷ o,
              s',
              loop_copy fuel input s buf cp cur (ground (arith, View-length v)) e
                  ∙ p
                  ∙ (simp append_assoc),
              copied c suf (sym (at_reference_lem input cur c suf (View.rest v)) ∙ e) d,
            )
      ]

  -- Expand never panics, ends within its bound, and writes what the rules say of the whole input.
  pub expand_sound :
      (input : Bytes) (s : S)
      → (o : Bytes) × (s' : S) × (expand mapping input s ≡ some (o, s'))
        × Expands mapping s input o s'
  unfolding expand Runs
  expand_sound input s =
      loop-Runs (suc (length input)) input s [] 0 0 [] input (omega arith)
        (record { rest = refl; pending = refl; ordered = omega arith })
