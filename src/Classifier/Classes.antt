-- ===== src/Classifier/Classes.antt =====
-- What the Classifier of internal/compute/podhandler/podStatus.go counts.
use hpktainer.Base.{
  ℕ, suc, ◌+◌, ◌≡◌, ◌≢◌, refl, Bool, true, false, Option, none, some, List, [], ◌∷◌, Bytes, is_zero,
  beq_iff, if◌then◌else◌, arith, All, lookup, insert, lookup-insert, length,
}
use hpktainer.Pod.{ContainerStatus, Terminated}
use hpktainer.Classifier.{Classifier, reset, classify_state, classify, classify_all}

pub data JobClass : Type 0 where
  is_pending is_running is_successful is_failed : JobClass

abbrev class_of_state : Option Terminated → Option ℕ → JobClass
class_of_state (some t) _ = if is_zero t.exit_code then is_successful else is_failed
class_of_state none (some _) = is_running
class_of_state none none = is_pending

-- The class that a status belongs to.
pub class_of : ContainerStatus → JobClass
class_of s = class_of_state s.state.terminated s.state.running

same_class : JobClass → JobClass → Bool
same_class is_pending is_pending = true
same_class is_running is_running = true
same_class is_successful is_successful = true
same_class is_failed is_failed = true
same_class _ _ = false

-- How many of the statuses are of a class.
pub count_class : JobClass → List ContainerStatus → ℕ
unfolding same_class class_of
count_class k [] = 0
count_class k (s ∷ ss) =
    let rest = count_class k ss in if same_class (class_of s) k then suc rest else rest

abbrev pub jobs : JobClass → Classifier → List (Bytes × ContainerStatus)
jobs is_pending c = c.pending_jobs
jobs is_running c = c.running_jobs
jobs is_successful c = c.successful_jobs
jobs is_failed c = c.failed_jobs

Absent : Bytes → Classifier → Type 0
Absent name c = (k : JobClass) → lookup name (jobs k c) ≡ none

-- No two statuses have the same name.
abbrev pub DistinctNames : List ContainerStatus → Type 0
DistinctNames [] = Unit
DistinctNames (s ∷ ss) = All (λ t. s.name ≢ t.name) ss × DistinctNames ss

length-insert :
    (k : Bytes) (v : ContainerStatus) (m : List (Bytes × ContainerStatus))
    → lookup k m ≡ none
    → length (insert k v m) ≡ suc (length m)
unfolding lookup insert
length-insert k v [] h = refl
length-insert k v ((j, w) ∷ m) h = ground (arith, length-insert k v m)

-- One status more is counted in its own class.
length-classify :
    (k : JobClass) (c : Classifier) (s : ContainerStatus)
    → Absent s.name c
    → length (jobs k (classify c s.name s))
      ≡ (if same_class (class_of s) k then suc (length (jobs k c)) else length (jobs k c))
unfolding classify classify_state same_class class_of Absent
length-classify is_pending c s h =
    ground (arith, length-insert s.name s c.pending_jobs (h is_pending))
length-classify is_running c s h =
    ground (arith, length-insert s.name s c.running_jobs (h is_running))
length-classify is_successful c s h =
    ground (arith, length-insert s.name s c.successful_jobs (h is_successful))
length-classify is_failed c s h = ground (arith, length-insert s.name s c.failed_jobs (h is_failed))

lookup-insert_ne :
    (k j : Bytes) (v : ContainerStatus) (m : List (Bytes × ContainerStatus))
    → k ≢ j
    → lookup j m ≡ none
    → lookup j (insert k v m) ≡ none
lookup-insert_ne k j v m n h = ground (arith, lookup-insert k j v m, beq_iff k j)

Absent-classify :
    (c : Classifier) (s : ContainerStatus) (name : Bytes)
    → s.name ≢ name
    → Absent name c
    → Absent name (classify c s.name s)
unfolding classify classify_state Absent
Absent-classify c s name n h is_pending =
    ground (arith, h is_pending, lookup-insert_ne s.name name s c.pending_jobs n)
Absent-classify c s name n h is_running =
    ground (arith, h is_running, lookup-insert_ne s.name name s c.running_jobs n)
Absent-classify c s name n h is_successful =
    ground (arith, h is_successful, lookup-insert_ne s.name name s c.successful_jobs n)
Absent-classify c s name n h is_failed =
    ground (arith, h is_failed, lookup-insert_ne s.name name s c.failed_jobs n)

AllAbsent : List ContainerStatus → Classifier → Type 0
AllAbsent ss c = All (λ s. Absent s.name c) ss

AllAbsent-classify :
    (c : Classifier) (s : ContainerStatus) (ss : List ContainerStatus)
    → All (λ t. s.name ≢ t.name) ss
    → AllAbsent ss c
    → AllAbsent ss (classify c s.name s)
unfolding AllAbsent
AllAbsent-classify c s [] n h = tt
AllAbsent-classify c s (t ∷ ss) n h =
    (Absent-classify c s t.name n.0 h.0, AllAbsent-classify c s ss n.1 h.1)

length-classify_all_from :
    (k : JobClass) (c : Classifier) (ss : List ContainerStatus)
    → DistinctNames ss
    → AllAbsent ss c
    → length (jobs k (classify_all c ss)) ≡ length (jobs k c) + count_class k ss
unfolding classify_all count_class AllAbsent
length-classify_all_from k c [] d h = omega arith
length-classify_all_from k c (s ∷ ss) d h = ground (
  arith,
  length-classify k c s h.0,
  length-classify_all_from k (classify c s.name s) ss d.1 (AllAbsent-classify c s ss d.0 h.1),
)

absent_reset : (ss : List ContainerStatus) → AllAbsent ss reset
unfolding AllAbsent Absent lookup
absent_reset [] = tt
absent_reset (s ∷ ss) = (
  elim [ is_pending ↦ refl | is_running ↦ refl | is_successful ↦ refl | is_failed ↦ refl ],
  absent_reset ss,
)

length-reset : (k : JobClass) → length (jobs k reset) ≡ 0
length-reset is_pending = refl
length-reset is_running = refl
length-reset is_successful = refl
length-reset is_failed = refl

-- If no two containers have the same name, the classifier holds as many jobs of each class as there
-- are statuses of the class.
pub length-classify_all :
    (k : JobClass) (ss : List ContainerStatus)
    → DistinctNames ss
    → length (jobs k (classify_all reset ss)) ≡ count_class k ss
length-classify_all k ss d =
    omega (arith, length-classify_all_from k reset ss d (absent_reset ss), length-reset k)

-- The four classes cover the statuses.
pub count_class_total :
    (ss : List ContainerStatus)
    → count_class is_pending ss
        + count_class is_running ss
        + count_class is_successful ss
        + count_class is_failed ss
      ≡ length ss
unfolding count_class
count_class_total [] = refl
count_class_total (s ∷ ss) = ground (arith, count_class_total ss)
