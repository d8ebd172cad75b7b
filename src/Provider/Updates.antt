-- ===== src/Provider/Updates.antt =====
-- UpdatePod of internal/provider/provider.go over a sequence of updates.
use hpktainer.Base.{
  ℕ, ◌≤◌, ◌≡◌, Bool, Option, none, some, List, [], ◌∷◌, arith, All, Bool-cases, inl, inr,
  parse_uint,
}
use hpktainer.Pod.{Pod}
use hpktainer.Provider.{older, is_older, has_job_id, update_pod, update_pods}

-- The resource version of the pod is this number.
abbrev pub HasVersion : Pod → ℕ → Type 0
HasVersion pod v = parse_uint pod.resource_version ≡ some v

-- The pod is saved, with a version that is not below the number.
abbrev pub AtLeast : Option Pod → ℕ → Type 0
AtLeast none v = ⊥
AtLeast (some pod) v = (w : ℕ) × HasVersion pod w × (v ≤ w)

update_pod-AtLeast :
    (local pod : Pod) (save_ok : Bool) (v w : ℕ)
    → HasVersion local v
    → HasVersion pod w
    → AtLeast (update_pod (some local) pod save_ok).1 v
unfolding update_pod is_older older
update_pod-AtLeast local pod save_ok v w h k = elim (Bool-cases (is_older local pod)) [
  | inl e ↦ rw e (v, h, omega arith)
  | inr e ↦ elim (Bool-cases (has_job_id pod)) [
    | inr j ↦ rw e (rw j (v, h, omega arith))
    | inl j ↦ elim (Bool-cases save_ok) [
      | inr s ↦ rw e (rw j (rw s (v, h, omega arith)))
      | inl s ↦ rw e (rw j (rw s (w, k, ground (arith, h, k, e))))
    ]
  ]
]

AtLeast-mono : (o : Option Pod) (v w : ℕ) → v ≤ w → AtLeast o w → AtLeast o v
AtLeast-mono none v w h k = k
AtLeast-mono (some pod) v w h k = (k.0, k.1, omega (arith, k.2))

update_pods-from :
    (o : Option Pod) (updates : List (Pod × Bool)) (v : ℕ)
    → AtLeast o v
    → All (λ u. (w : ℕ) × HasVersion u.0 w) updates
    → AtLeast (update_pods o updates) v
unfolding update_pods
update_pods-from o [] v h k = h
update_pods-from none ((pod, save_ok) ∷ rest) v h k = absurd h
update_pods-from (some local) ((pod, save_ok) ∷ rest) v h k = AtLeast-mono _ v h.0 h.2 (
    update_pods-from (update_pod (some local) pod save_ok).1 rest h.0
      (update_pod-AtLeast local pod save_ok h.0 k.0.0 h.1 k.0.1) k.1)

-- If the saved version and all that come in are numbers, then behind any sequence of updates, old and
-- repeated ones and failed saves included, the pod is still saved and its version has not gone back.
pub update_pods-AtLeast :
    (local : Pod) (updates : List (Pod × Bool)) (v : ℕ)
    → HasVersion local v
    → All (λ u. (w : ℕ) × HasVersion u.0 w) updates
    → AtLeast (update_pods (some local) updates) v
update_pods-AtLeast local updates v h k =
    update_pods-from (some local) updates v (v, h, omega arith) k
