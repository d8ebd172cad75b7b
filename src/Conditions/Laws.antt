-- ===== src/Conditions/Laws.antt =====
-- What SetPodStatusCondition of pkg/crdtools/pod-conditions.go does to a list of conditions.
use hpktainer.Base.{
  ℕ, ◌≡◌, ◌≢◌, ap, refl, true, Option, none, some, List, [], ◌∷◌, Bytes, beq, beq_refl, beq_iff,
  if◌then◌else◌, arith, All, Bool-cases, inl, inr,
}
use hpktainer.Pod.{Condition, ConditionStatus, status_true, status_false, status_unknown}
use hpktainer.Conditions.{
  find_status_condition, update_condition, first_condition, set_pod_status_condition, same_status,
}

-- What is found of the new condition's type afterwards.
abbrev pub merged : ℕ → Condition → Option Condition → Condition
merged now new none = first_condition now new
merged now new (some existing) = update_condition now existing new

same_status_refl : (s : ConditionStatus) → same_status s s ≡ true
unfolding same_status
same_status_refl status_true = refl
same_status_refl status_false = refl
same_status_refl status_unknown = refl

update-twice :
    (now later : ℕ) (c new : Condition)
    → update_condition later (update_condition now c new) new ≡ update_condition now c new
unfolding update_condition
update-twice now later c new = ground (arith, same_status_refl new.status)

update-first :
    (now later : ℕ) (new : Condition)
    → update_condition later (first_condition now new) new ≡ first_condition now new
unfolding update_condition first_condition
update-first now later new = ground (arith, same_status_refl new.status)

update_condition_type : (now : ℕ) (c new : Condition) → (update_condition now c new).type ≡ c.type
unfolding update_condition
update_condition_type now c new = ground arith

-- Afterwards the condition found of the new one's type is the update of the one found before, or the
-- new one with its time set if there was none; what is found of any other type is as before.
pub find-set :
    (now : ℕ) (cs : List Condition) (new : Condition) (t : Bytes)
    → find_status_condition (set_pod_status_condition now cs new) t ≡ (
        if beq new.type t
        then some (merged now new (find_status_condition cs new.type))
        else find_status_condition cs t)
unfolding find_status_condition set_pod_status_condition
find-set now [] new t = ground arith
find-set now (c ∷ cs) new t = ground (
  arith,
  find-set now cs new t,
  ap (λ (x : Bytes). beq x t) (update_condition_type now c new),
  beq_iff c.type new.type,
  beq_iff new.type t,
  beq_iff c.type t,
)

abbrev pub Fresh : Bytes → List Condition → Type 0
Fresh t = All (λ c. c.type ≢ t)

-- No two conditions have the same type.
abbrev pub Distinct : List Condition → Type 0
Distinct [] = Unit
Distinct (c ∷ cs) = Fresh c.type cs × Distinct cs

Fresh-set :
    (now : ℕ) (cs : List Condition) (new : Condition) (t : Bytes)
    → new.type ≢ t
    → Fresh t cs
    → Fresh t (set_pod_status_condition now cs new)
unfolding set_pod_status_condition
Fresh-set now [] new t n h = (n, tt)
Fresh-set now (c ∷ cs) new t n h = elim (Bool-cases (beq c.type new.type)) [
  | inl e ↦ rw e (rw (update_condition_type now c new) h.0, h.1)
  | inr e ↦ rw e (h.0, Fresh-set now cs new t n h.1)
]

-- A list with one condition for each type stays so.
pub set-Distinct :
    (now : ℕ) (cs : List Condition) (new : Condition)
    → Distinct cs
    → Distinct (set_pod_status_condition now cs new)
unfolding set_pod_status_condition
set-Distinct now [] new h = (tt, tt)
set-Distinct now (c ∷ cs) new h = elim (Bool-cases (beq c.type new.type)) [
  | inl e ↦ rw e rw (update_condition_type now c new) h
  | inr e ↦ rw e (
    Fresh-set now cs new c.type (λ p. ground (arith, beq_iff c.type new.type)) h.0,
    set-Distinct now cs new h.1,
  )
]

-- Setting the same condition again, at whatever time, changes nothing: the transition time is the
-- time of the first change.
pub set-set :
    (now later : ℕ) (cs : List Condition) (new : Condition)
    → set_pod_status_condition later (set_pod_status_condition now cs new) new
      ≡ set_pod_status_condition now cs new
unfolding set_pod_status_condition
set-set now later [] new = ground (arith, beq_refl new.type, update-first now later new)
set-set now later (c ∷ cs) new =
    ground (
      arith,
      update_condition_type now c new,
      update-twice now later c new,
      set-set now later cs new,
    )
