-- ===== src/Classifier.antt =====
-- The Classifier of internal/compute/podhandler/podStatus.go.
pub mod Classes
use hpktainer.Base.{
  ℕ, Option, none, some, List, [], ◌∷◌, ◌++◌, Bytes, codes, is_zero, if◌then◌else◌, insert,
  sort_strings, join,
}
use hpktainer.Pod.{ContainerStatus, Terminated}

-- Classifier: container statuses by container name.
pub record Classifier : Type 0 where
  pub pending_jobs : List (Bytes × ContainerStatus)
  pub running_jobs : List (Bytes × ContainerStatus)
  pub successful_jobs : List (Bytes × ContainerStatus)
  pub failed_jobs : List (Bytes × ContainerStatus)

abbrev pub reset : Classifier
reset = record { pending_jobs = []; running_jobs = []; successful_jobs = []; failed_jobs = [] }

unfoldable pub classify_state :
    Option Terminated → Option ℕ → Bytes → ContainerStatus → Classifier → Classifier
classify_state (some t) _ name status c =
    if is_zero t.exit_code
    then record c { successful_jobs = insert name status c.successful_jobs }
    else record c { failed_jobs = insert name status c.failed_jobs }
classify_state none (some _) name status c = record c {
  running_jobs = insert name status c.running_jobs;
}
classify_state none none name status c = record c {
  pending_jobs = insert name status c.pending_jobs;
}

-- Classifier.Classify. The cases for a waiting state and for no state at all do the same.
unfoldable pub classify : Classifier → Bytes → ContainerStatus → Classifier
unfolding classify_state
classify c name status = classify_state status.state.terminated status.state.running name status c

-- The loop over pod.Status.ContainerStatuses.
unfoldable pub classify_all : Classifier → List ContainerStatus → Classifier
classify_all c [] = c
classify_all c (s ∷ ss) = classify_all (classify c s.name s) ss

unfoldable pub names : List (Bytes × ContainerStatus) → List Bytes
names [] = []
names ((name, s) ∷ m) = name ∷ names m

-- A sorted list of job names, as `%s` prints it.
unfoldable pub list_jobs : List (Bytes × ContainerStatus) → Bytes
unfolding names
list_jobs m = codes "[" ++ (join (sort_strings (names m)) 32 ++ codes "]")
