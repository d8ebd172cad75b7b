-- ===== src/Events.antt =====
-- internal/compute/events/listener.go, with ParseControlFilePath of internal/compute/endpoint/paths.go:
-- how an event on a control file becomes a notification. The regular expression is matched as package
-- regexp does: the first match in the order in which a backtracking search meets them.
pub mod ControlFile
pub mod Reactions
pub mod Examples
use hpktainer.Base.{
  ℕ, Bool, true, false, Option, none, some, [], ◌∷◌, ◌++◌, Bytes, codes, if◌then◌else◌, ◌==◌, ◌||◌,
  beq, any, cut_prefix, trim_prefix, is_abs, ext,
}
use hpktainer.Endpoint.{
  extension_sys_error, extension_ip, extension_exit_code, extension_job_id, pod_path,
  sys_error_file_path,
}
use hpktainer.Pod.{Phase, succeeded, failed, Pod}
use hpktainer.Conditions.{pod_error}

-- \s of package regexp.
abbrev pub is_blank : ℕ → Bool
is_blank c = c == 9 || (c == 10 || (c == 12 || (c == 13 || c == 32)))

-- The namespace, the pod and the file of a match.
pub record Match : Type 0 where
  pub namespace : Bytes
  pub pod : Bytes
  pub file : Bytes

-- `/controlfiles/(?P<file>.*)$`
pub match_file : Bytes → Option Match
match_file s = elim (cut_prefix s (codes "/controlfiles/")) [
  | none ↦ none
  | some file ↦
      if any (λ c. c == 10) file
      then none
      else some (record { namespace = []; pod = []; file = file })
]

pub push_pod : ℕ → Option Match → Option Match
push_pod c none = none
push_pod c (some m) = some (record m { pod = c ∷ m.pod })

pub push_namespace : ℕ → Option Match → Option Match
push_namespace c none = none
push_namespace c (some m) = some (record m { namespace = c ∷ m.namespace })

pub first_match : Option Match → Option Match → Option Match
first_match (some m) other = some m
first_match none other = other

-- `\S*?/controlfiles/(?P<file>.*)$`: the shortest text first.
pub match_pod_rest : Bytes → Option Match
unfolding first_match push_pod
match_pod_rest [] = match_file []
match_pod_rest (c ∷ s) =
    let longer = match_pod_rest s in
    first_match (match_file (c ∷ s)) (if is_blank c then none else push_pod c longer)

-- `/(?P<pod>\S+?)/controlfiles/(?P<file>.*)$`
pub match_pod : Bytes → Option Match
match_pod [] = none
match_pod (d ∷ []) = none
match_pod (d ∷ c ∷ s) =
    if d == b'/' then (if is_blank c then none else push_pod c (match_pod_rest s)) else none

-- `\S*/(?P<pod>\S+?)/controlfiles/(?P<file>.*)$`: the longest text first.
pub match_namespace_rest : Bytes → Option Match
unfolding first_match push_namespace
match_namespace_rest [] = match_pod []
match_namespace_rest (c ∷ s) =
    let longer = match_namespace_rest s in
    first_match (if is_blank c then none else push_namespace c longer) (match_pod (c ∷ s))

pub match_path : Bytes → Option Match
match_path [] = none
match_path (d ∷ []) = none
match_path (d ∷ c ∷ s) =
    if d == b'/'
    then (if is_blank c then none else push_namespace c (match_namespace_rest s))
    else none

-- ParseControlFilePath below the directory `hpk`; `none` is invalid.
pub parse_control_file_path : Bytes → Bytes → Option Match
parse_control_file_path hpk abs_path =
    if is_abs abs_path then match_path (trim_prefix abs_path hpk) else none

-- An fsnotify event: the path, and whether the operation has the bits Create and Write.
pub record Event : Type 0 where
  pub name : Bytes
  pub has_create : Bool
  pub has_write : Bool

-- PodControl, without the notification, which is the result. A pod that cannot be loaded is `none`.
pub record PodControl : Type 0 where
  pub update_status : Pod → Pod
  pub load_from_disk : Bytes → Bytes → Option Pod

-- The switch on the extension.
pub data Reaction : Type 0 where
  fail_pod reconcile ignore : Reaction

pub reaction : Bytes → Reaction
reaction file =
    let e = ext file in
    if beq e extension_sys_error
    then fail_pod
    else if beq e extension_ip
    then reconcile
    else if beq e extension_job_id
    then (if beq file (codes "pause" ++ extension_job_id) then ignore else reconcile)
    else if beq e extension_exit_code
    then reconcile
    else ignore

pub is_final : Phase → Bool
is_final succeeded = true
is_final failed = true
is_final _ = false

-- The pod whose system error is reported; the reason is read from its file, if that can be read.
fail_loaded : ℕ → Option Bytes → Option Pod → Option Pod
fail_loaded now reason none = none
fail_loaded now (some reason) (some pod) =
    some (pod_error now pod (codes "SYSERROR") (codes "Pod creation has failed: " ++ reason))
fail_loaded now none (some pod) = some (
    pod_error now pod (codes "SYSERROR")
      (codes "Pod creation has failed: Pod creation failed with system error"))

reconcile_event : (Pod → Pod) → Option Pod → Option Pod
unfolding is_final
reconcile_event update_status none = none
reconcile_event update_status (some pod) =
    if is_final pod.status.phase then none else some (update_status pod)

react : Reaction → PodControl → (Bytes → Option Bytes) → Bytes → ℕ → Match → Option Pod
unfolding fail_loaded reconcile_event
react fail_pod control read_file hpk now m =
    fail_loaded now (read_file (sys_error_file_path (pod_path hpk m.namespace m.pod)))
      (control.load_from_disk m.namespace m.pod)
react reconcile control read_file hpk now m =
    reconcile_event control.update_status (control.load_from_disk m.namespace m.pod)
react ignore control read_file hpk now m = none

process_match : Event → PodControl → (Bytes → Option Bytes) → Bytes → ℕ → Option Match → Option Pod
unfolding react
process_match event control read_file hpk now none = none
process_match event control read_file hpk now (some m) =
    if event.has_create || event.has_write
    then react (reaction m.file) control read_file hpk now m
    else none

-- processEvent: the pod that is notified, if any.
pub process_event : Event → PodControl → (Bytes → Option Bytes) → Bytes → ℕ → Option Pod
unfolding process_match
process_event event control read_file hpk now =
    process_match event control read_file hpk now (parse_control_file_path hpk event.name)
