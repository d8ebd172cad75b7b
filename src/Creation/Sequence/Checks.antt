-- ===== src/Creation/Sequence/Checks.antt =====
-- The list of the checks of CreatePod (internal/compute/podhandler/podhandler.go), and what it means for
-- a step to meet a list of checks.
use hpktainer.Base.{
  Bool, true, false, Option, none, some, List, [], ◌∷◌, ◌++◌, Bytes, codes, ◌≡◌, refl, ◌∙◌, ◌⊎◌,
}
use hpktainer.Pod.{Phase, failed}
use hpktainer.Endpoint.{job_dir, log_dir, volume_dir, control_file_dir, image_dir}
use hpktainer.Image.{pull, docker}
use hpktainer.Creation.Building.{Handler}
use hpktainer.Creation.{
  PodSpec, Host, Creation, Flow, goes, stops, ◌and_then◌, watched, build_containers, is_built,
  is_located,
}

-- What has to hold, each with the reason for which the pod fails otherwise.
abbrev pub Checks : Type 0
Checks = List (Bool × Bytes)

abbrev pub first_failure : Checks → Option Bytes
first_failure [] = none
first_failure ((true, reason) ∷ checks) = first_failure checks
first_failure ((false, reason) ∷ checks) = some reason

unfoldable pub volume_checks : Host → List Bytes → Checks
volume_checks h [] = []
volume_checks h (v ∷ vs) = (h.mounts_volume v, codes "VolumeError") ∷ volume_checks h vs

unfoldable pub cgroup_checks : Bool → Host → Checks
cgroup_checks true h = (h.creates_cgroup_file, codes "CgroupError") ∷ []
cgroup_checks false h = []

-- What CreatePod promises: its checks, in their order, for the directory and the handler of the pod.
unfoldable pub checks_of : Host → PodSpec → Bytes → Handler → Checks
unfolding volume_checks cgroup_checks
checks_of h spec dir handler =
    let preparation =
      (h.can_make_dir (job_dir dir), codes "PodDirectoryError")
      ∷ (h.can_make_dir (log_dir dir), codes "PodDirectoryError")
      ∷ (h.can_make_dir (volume_dir dir), codes "PodDirectoryError")
      ∷ (h.can_make_dir (control_file_dir dir), codes "PodDirectoryError")
      ∷ (h.saves_early, codes "SavePodError")
      ∷ (watched h.watch, codes "WatcherError")
      ∷ [] in
    let init =
      (
        is_built (build_containers h.building handler spec.init_containers).1,
        codes "InitContainerError",
      )
      ∷ [] in
    let main =
      (is_built (build_containers h.building handler spec.containers).1, codes "MainContainerError")
      ∷ [] in
    let submission =
      (
        is_located (
            (pull h.pause_images (image_dir h.environment.hpk) docker h.environment.pause_image).1),
        codes "ImagePullError",
      )
      ∷ (h.parses_template, codes "TemplateError")
      ∷ (h.evaluates_template, codes "TemplateError")
      ∷ (h.writes_script, codes "ScriptWriteError")
      ∷ (h.submits, codes "JobSubmissionError")
      ∷ [] in
    (((preparation ++ ((volume_checks h spec.volumes ++ init) ++ main))
        ++ cgroup_checks h.environment.enable_cgroup_v2 h)
      ++ submission)
    ++ (h.saves_last, codes "SavePodError") ∷ []

abbrev pub head? {ℓ} : {A : Type ℓ} → List A → Option A
head? [] = none
head? (x ∷ xs) = some x

-- The pod has failed for the reason, and was saved as such unless it is the saving that failed.
abbrev pub FailedFor : Bytes → Creation → Type 0
FailedFor reason c =
    (c.pod.status.phase ≡ failed)
    × ((c.pod.status.reason ≡ reason)
        × ((reason ≡ codes "SavePodError") ⊎ (head? c.saved ≡ some c.pod)))

-- The flow goes on with the phase of before if nothing fails, and otherwise it has stopped for the
-- first reason.
abbrev pub Follows : Phase → Option Bytes → Flow → Type 0
Follows phase none (goes c) = c.pod.status.phase ≡ phase
Follows phase (some reason) (stops c) = FailedFor reason c
Follows phase _ _ = ⊥

first_failure-append :
    (xs ys : Checks)
    → first_failure (xs ++ ys)
      ≡ elim (first_failure xs) [ none ↦ first_failure ys | some reason ↦ some reason ]
first_failure-append [] ys = refl
first_failure-append ((true, reason) ∷ xs) ys = first_failure-append xs ys
first_failure-append ((false, reason) ∷ xs) ys = refl

and_then-case :
    (phase : Phase) (first later : Option Bytes) (f : Flow) (k : Creation → Flow)
    → Follows phase first f
    → ((c : Creation) → c.pod.status.phase ≡ phase → Follows phase later (k c))
    → Follows phase (elim first [ none ↦ later | some reason ↦ some reason ]) (f and_then k)
and_then-case phase none later (goes c) k h g = g c h
and_then-case phase none later (stops c) k h g = elim h [ ]
and_then-case phase (some reason) later (goes c) k h g = elim h [ ]
and_then-case phase (some reason) later (stops c) k h g = h

-- The step meets the checks, whatever it begins with.
pub record Meets (phase : Phase) (checks : Checks) (k : Creation → Flow) : Type 0 where
  pub follows :
      (c : Creation) → c.pod.status.phase ≡ phase → Follows phase (first_failure checks) (k c)

pub last_case :
    (phase : Phase) (first : Option Bytes) (f : Flow) (k : Creation → Creation)
    → ((c : Creation) → (k c).pod.status.phase ≡ c.pod.status.phase)
    → Follows phase first f
    → Follows phase first (f and_then (λ c. goes (k c)))
last_case phase none (goes c) k h p = h c ∙ p
last_case phase none (stops c) k h p = p
last_case phase (some reason) (goes c) k h p = elim p [ ]
last_case phase (some reason) (stops c) k h p = p

module _ {phase : Phase} where
  infixl 5 ◌then_Meets◌
  pub ◌then_Meets◌ :
      {xs ys : Checks} {f g : Creation → Flow}
      → Meets phase xs f
      → Meets phase ys g
      → Meets phase (xs ++ ys) (λ c. f c and_then g)
  ◌then_Meets◌ {xs} {ys} {f} {g} p q = record {
    follows = λ c e. rw (first_failure-append xs ys) (
        and_then-case phase (first_failure xs) (first_failure ys) (f c) g (Meets.follows p c e)
          (Meets.follows q));
  }

  -- A step without a check, which keeps the phase.
  pub goes-Meets :
      (k : Creation → Creation)
      → ((c : Creation) → (k c).pod.status.phase ≡ c.pod.status.phase)
      → Meets phase [] (λ c. goes (k c))
  goes-Meets k h = record { follows = λ c e. h c ∙ e }

  pub goes_first :
      {xs : Checks} {f : Creation → Flow} (k : Creation → Creation)
      → ((c : Creation) → (k c).pod.status.phase ≡ c.pod.status.phase)
      → Meets phase xs f
      → Meets phase xs (λ c. f (k c))
  goes_first k h p = record { follows = λ c e. Meets.follows p (k c) (h c ∙ e) }

  pub goes_last :
      {xs : Checks} {f : Creation → Flow} (k : Creation → Creation)
      → ((c : Creation) → (k c).pod.status.phase ≡ c.pod.status.phase)
      → Meets phase xs f
      → Meets phase xs (λ c. f c and_then (λ d. goes (k d)))
  goes_last {xs} {f} k h p = record {
    follows = λ c e. last_case phase (first_failure xs) (f c) k h (Meets.follows p c e);
  }
