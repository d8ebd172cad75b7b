-- ===== src/Expansion/Callers/Missing.antt =====
-- When ExpandContainerVolumeMounts of pkg/container/helpers.go refuses a sub path.
use hpktainer.Base.{
  ◌≡◌, ◌≢◌, ◌↔◌, refl, sym, ap, Bytes, List, [], ◌∷◌, ◌++◌, Option, none, some, lookup, arith,
  Bool-cases, any, beq, ◌∙◌, inl, inr,
}
use hpktainer.Expansion.Reference.{Expands}
use hpktainer.Expansion.Equivalence.{expand_sound}
use hpktainer.Expansion.Callers.{
  EnvVar, env_vars_to_map, insert_key, found, record_missing, expanded, check_missing,
  expand_container_volume_mounts,
}

-- The variable has a value, and the value is not empty.
abbrev pub IsBound : List (Bytes × Bytes) → Bytes → Type 0
IsBound envmap name = (value : Bytes) × (lookup name envmap ≡ some value) × (value ≢ [])

-- Every name that an expansion looks up is bound.
module _ {S : Type 0} {mapping : S → Bytes → Bytes × S} (m : List (Bytes × Bytes)) where
  abbrev pub AllBound : {s s' : S} {i o : Bytes} → Expands mapping s i o s' → Type 0
  AllBound Expands.empty = Unit
  AllBound (Expands.plain c n d) = AllBound d
  AllBound Expands.trailing = Unit
  AllBound (Expands.escaped d) = AllBound d
  AllBound (Expands.reference name l e d q) = IsBound m name × AllBound d
  AllBound (Expands.unclosed l d) = AllBound d
  AllBound (Expands.other c n k d) = AllBound d

append-ne-nil : (keys : List Bytes) (key : Bytes) → keys ++ key ∷ [] ≢ []
append-ne-nil [] key e = cc
append-ne-nil (k ∷ keys) key e = cc

insert_key-ne-nil : (key : Bytes) (keys : List Bytes) → insert_key key keys ≢ []
unfolding insert_key
insert_key-ne-nil key [] e = cc
insert_key-ne-nil key (k ∷ keys) e = elim (Bool-cases (any (λ j. beq j key) (k ∷ keys))) [
  | inl f ↦ absurd (ground (arith, f))
  | inr f ↦ absurd (ground (arith, f))
]

module _ (m : List (Bytes × Bytes)) (key : Bytes) (missing : List Bytes) where
  found_ok :
      (o : Option Bytes)
      → ((found key missing o).1 ≡ [])
        ↔ ((missing ≡ []) × ((value : Bytes) × (o ≡ some value) × (value ≢ [])))
  unfolding found
  found_ok none = (λ e. absurd (insert_key-ne-nil key missing e), λ h. absurd (cc (h.1.1)))
  found_ok (some []) =
      (λ e. absurd (insert_key-ne-nil key missing e), λ h. absurd (h.1.2 (cc (h.1.1))))
  found_ok (some (c ∷ v)) = (λ e. (ground arith, (c ∷ v, refl, λ x. cc)), λ h. ground (arith, h.0))

module _ (m : List (Bytes × Bytes)) where
  record_missing_ok :
      {s s' : List Bytes} {i o : Bytes} (x : Expands (record_missing m) s i o s')
      → (s' ≡ []) ↔ ((s ≡ []) × AllBound m x)
  unfolding record_missing
  record_missing_ok Expands.empty = (λ e. (e, tt), λ h. h.0)
  record_missing_ok (Expands.plain c n d) = record_missing_ok d
  record_missing_ok Expands.trailing = (λ e. (e, tt), λ h. h.0)
  record_missing_ok (Expands.escaped d) = record_missing_ok d
  record_missing_ok (Expands.reference {s = s} {t = t} name l e d q) =
      let f = found_ok m name s (lookup name m) in
      let u : t ≡ (record_missing m s name).1 = sym (ap (λ (p : Bytes × List Bytes). p.1) e) in
      let ih = record_missing_ok d in
      (
        λ h. let (a, b) = ih.0 h in let (c, w) = f.0 (sym u ∙ a) in (c, (w, b)),
        λ h. ih.1 (u ∙ f.1 (h.0, h.1.0), h.1.1),
      )
  record_missing_ok (Expands.unclosed l d) = record_missing_ok d
  record_missing_ok (Expands.other c n k d) = record_missing_ok d

check_missing_ok :
    (o : Bytes) (missing : List Bytes)
    → (some (check_missing (o, missing)) ≡ some (expanded o)) ↔ (missing ≡ [])
unfolding check_missing
check_missing_ok o [] = (λ e. refl, λ e. refl)
check_missing_ok o (k ∷ keys) = (λ e. ground arith, λ e. cc)

-- ExpandContainerVolumeMounts never panics, and it returns the expansion that the rules give of the
-- sub path exactly when every variable that the expansion looks up has a value and no such value is
-- empty.
pub expand_container_volume_mounts_ok :
    (text : Bytes) (envs : List EnvVar)
    → (o : Bytes) × (missing : List Bytes) × (x : Expands
        (record_missing (env_vars_to_map envs))
        []
        text
        o
        missing)
      × ((expand_container_volume_mounts text envs ≡ some (expanded o))
          ↔ AllBound (env_vars_to_map envs) x)
      × (expand_container_volume_mounts text envs ≢ none)
unfolding expand_container_volume_mounts
expand_container_volume_mounts_ok text envs =
    let (o, missing, e, x) = expand_sound (record_missing (env_vars_to_map envs)) text [] in
    let ok = record_missing_ok (env_vars_to_map envs) x in
    let c = check_missing_ok o missing in
    (
      o,
      missing,
      x,
      rw (e, expand_container_volume_mounts) (λ h. (ok.0 (c.0 h)).1, λ h. c.1 (ok.1 (refl, h))),
      rw (e, expand_container_volume_mounts) (λ h. cc),
    )
