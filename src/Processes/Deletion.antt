-- ===== src/Processes/Deletion.antt =====
-- The signals of DeletePod (internal/compute/podhandler/podhandler.go).
use hpktainer.Identity.{Os, verify_process_identity}
use hpktainer.Base.{
  ℕ, ◌≡◌, ◌∙◌, refl, sym, true, Option, none, some, List, [], ◌∷◌, Bytes, All, All-append,
  Bool-cases, inl, inr,
}
use hpktainer.Endpoint.{pod_path}
use hpktainer.Pod.{Pod}
use hpktainer.JobId.{parsed, parse_process_job_id}
use hpktainer.Containers.{Disk, read_string_from_file}
use hpktainer.Cancel.{Effect, to_process, to_process_group, slept}
use hpktainer.Cancel.Targets.{
  Recorded, here, there, Authorised, kill_pod_processes_with_timeout-Authorised,
}
use hpktainer.Processes.{
  resolve_process_pid_from_control_files, resolve_secondary_container_pids, loaded, RemoveResult,
  removed, permission_denied, remove_failed, Host, DeleteStep, kill, kill_steps, kill_timeout,
  kills, clean_up, remove_steps, delete_pod,
}
use hpktainer.Processes.Ids.{parse-trimmed_pid}
use hpktainer.Processes.Sources.{OwnFile, From, resolve-From, secondary-From}

-- One of the files names the process, and with its start time the identity is accepted.
pub record Named (disk : Disk) (os : Os) (pod : Pod) (pod_dir : Bytes) (p : ℕ) : Type 0 where
  pub path : Bytes
  pub raw : Bytes
  pub start_time : ℕ
  pub own : OwnFile pod pod_dir path
  pub reads : read_string_from_file (disk path) ≡ some raw
  pub identifies : parse_process_job_id raw ≡ parsed p start_time
  pub confirmed : verify_process_identity os p start_time ≡ true

module _ (disk : Disk) (pod : Pod) (pod_dir : Bytes) where
  module _ (os : Os) where
    Recorded-Named :
        (texts : List Bytes) (p : ℕ)
        → All (From disk pod pod_dir) texts
        → Recorded os texts p
        → Named disk os pod pod_dir p
    Recorded-Named [] p f r = elim r [ ]
    Recorded-Named (text ∷ texts) p f (here {start = start} e v) = record {
      path = f.0.path;
      raw = f.0.raw;
      start_time = start;
      own = f.0.own;
      reads = f.0.reads;
      identifies = sym (parse-trimmed_pid f.0.raw text f.0.parses) ∙ e;
      confirmed = v;
    }
    Recorded-Named (text ∷ texts) p f (there r) = Recorded-Named texts p f.1 r

    -- A step that sends a signal sends it to a process that the pod's files name.
    abbrev pub Justified : DeleteStep → Type 0
    Justified (kill (to_process p s)) = Named disk os pod pod_dir p
    Justified (kill (to_process_group p s)) = Named disk os pod pod_dir p
    Justified _ = Unit

    kills-Justified :
        (primary : Bytes) (secondary : List Bytes) (es : List Effect)
        → From disk pod pod_dir primary
        → All (From disk pod pod_dir) secondary
        → All (Authorised os primary secondary) es
        → All Justified (kills es)
    unfolding kills
    kills-Justified primary secondary [] f fs h = tt
    kills-Justified primary secondary (to_process p s ∷ es) f fs h = (
      Recorded-Named (primary ∷ secondary) p (f, fs) h.0,
      kills-Justified primary secondary es f fs h.1,
    )
    kills-Justified primary secondary (to_process_group p s ∷ es) f fs h =
        (Recorded-Named secondary p fs h.0.1, kills-Justified primary secondary es f fs h.1)
    kills-Justified primary secondary (slept t ∷ es) f fs h =
        (tt, kills-Justified primary secondary es f fs h.1)

    kill_steps-Justified :
        (pid : Option Bytes) (now : ℕ)
        → ((text : Bytes) → pid ≡ some text → From disk pod pod_dir text)
        → All Justified (kills (kill_steps pid disk os pod pod_dir now))
    unfolding kill_steps kills
    kill_steps-Justified none now f = tt
    kill_steps-Justified (some pid) now f =
        let secondary = resolve_secondary_container_pids disk pod pod_dir pid in
        kills-Justified pid secondary _ (f pid refl) (secondary-From disk pod pod_dir pid)
          (kill_pod_processes_with_timeout-Authorised os pid secondary (kill_timeout pod) now)

    clean_up-Justified :
        (host : Host) (hpk namespace name : Bytes)
        → All Justified (clean_up host hpk namespace name)
    unfolding clean_up
    clean_up-Justified host hpk namespace name = elim (Bool-cases host.namespace_is_empty) [
      | inl e ↦ rw e (tt, (tt, tt))
      | inr e ↦ rw e (tt, tt)
    ]

    remove_steps-Justified :
        (r : RemoveResult) (host : Host) (hpk namespace name : Bytes)
        → All Justified (remove_steps r host hpk namespace name).0
    unfolding remove_steps
    remove_steps-Justified removed host hpk namespace name =
        clean_up-Justified host hpk namespace name
    remove_steps-Justified permission_denied host hpk namespace name =
        elim (Bool-cases host.fakeroot_exec) [
          | inr e ↦ rw e (tt, tt)
          | inl e ↦ elim (Bool-cases host.remove_again) [
            | inl b ↦ rw e (rw b (tt, (tt, clean_up-Justified host hpk namespace name)))
            | inr b ↦ rw e (rw b (tt, (tt, tt)))
          ]
        ]
    remove_steps-Justified remove_failed host hpk namespace name = tt

-- Every signal that the deletion of a loaded pod sends goes to a process, or to the group of a
-- process, whose id stands in one of that pod's control files or in its wrapper file, and whose
-- identity verifyProcessIdentity accepts with the start time of that file.
pub delete_pod-Justified :
    (pod : Pod) (disk : Disk) (os : Os) (host : Host) (hpk namespace name : Bytes) (now : ℕ)
    → All
        (Justified disk pod (pod_path hpk namespace name) os)
        (delete_pod (loaded pod) disk os host hpk namespace name now).0
unfolding delete_pod
delete_pod-Justified pod disk os host hpk namespace name now =
    let pod_dir = pod_path hpk namespace name in
    let pid = resolve_process_pid_from_control_files disk pod pod_dir in
    All-append (Justified disk pod pod_dir os) (kills (kill_steps pid disk os pod pod_dir now)) _
      (kill_steps-Justified disk pod pod_dir os pid now (resolve-From disk pod pod_dir))
      (tt, (tt, remove_steps-Justified disk pod pod_dir os host.remove_all host hpk namespace name))
