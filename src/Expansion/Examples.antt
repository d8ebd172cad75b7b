-- ===== src/Expansion/Examples.antt =====
-- Tests and instances for pkg/expansion/expand.go and pkg/container/helpers.go.
use hpktainer.Base.{rune_text, [], ◌∷◌, ◌≡◌, refl, some, Bytes, codes}
use hpktainer.Expansion.{expand}
use hpktainer.Expansion.Reference.{Expands}
use hpktainer.Expansion.Equivalence.{expand_sound}
use hpktainer.Expansion.RoundTrip.{expand_complete}

abbrev upper : Unit {0} → Bytes → Bytes × Unit {0}
upper s name = (codes "<>", s)

mixed : expand upper (codes "a$(B)c$$d$e$(f$") tt ≡ some (codes "a<>c$d$e$(f$", tt)
unfolding expand rune_text
mixed = refl

-- The two bytes of é behind an operator: the first is written as a rune of its own.
wide : expand upper (b'$' ∷ 195 ∷ 169 ∷ []) tt ≡ some (b'$' ∷ 195 ∷ 131 ∷ 169 ∷ [], tt)
unfolding expand rune_text
wide = refl

expand_sound_example :
    (o : Bytes) × (s' : Unit {0}) × (expand upper (codes "a$(B)$$") tt ≡ some (o, s'))
    × Expands upper tt (codes "a$(B)$$") o s'
expand_sound_example = expand_sound upper (codes "a$(B)$$") tt

expand_complete_example : expand upper (codes "$$") tt ≡ some (codes "$", tt)
expand_complete_example =
    expand_complete upper (codes "$$") (codes "$") tt tt (Expands.escaped Expands.empty)
