-- ===== src/Pause/Execution/ExitCode.antt =====
-- The exit code file that executeContainer of cmd/hpk-pause/main.go leaves for the kubelet.
use hpktainer.Base.{
  ℕ, Bool, true, false, Option, none, some, List, [], ◌∷◌, ◌++◌, Bytes, codes, ◌≡◌, ◌≢◌, refl, ap,
  arith, ℤ, itoa, if◌then◌else◌, Bool-cases, ◌||◌, inl, inr,
}
use hpktainer.Expansion.Callers.{EnvVar}
use hpktainer.Pause.Arguments.{
  pod_dir, Container, PausePod, Host, ExecError, env_file_failed, env_file_not_written,
  log_not_created, absolute_sub_path, sub_path_missing, start_failed, id_not_written,
  exit_code_not_written, container_failed, panics, Result, ok, err,
}
use hpktainer.Pause.Arguments.Total.{bind_mounts-ne-panics, apptainer_args-ne-panics}
use hpktainer.Endpoint.{logs_path, volume_dir, exit_code_path}
use hpktainer.Pause.EnvFile.{parse_env_vars}
use hpktainer.Pause.Execution.{
  Effect, write_exit_code, close_log, wait, Outcome, finished, Execution, give_up, after_env_write,
  read_env_file, container_envs, reported_code, after_wait, run_started, run_command, run_logged,
  run_args, run_binds, run_envs, execute_container,
}

abbrev pub exit_text : Effect → Option Bytes
exit_text (write_exit_code path text) = some text
exit_text _ = none

abbrev pub is_wait : Effect → Bool
is_wait (wait pid) = true
is_wait _ = false

abbrev pub keep : Option Bytes → List Bytes → List Bytes
keep none texts = texts
keep (some text) texts = text ∷ texts

-- The contents of the attempts at writing the exit code file.
abbrev pub exit_writes : List Effect → List Bytes
exit_writes [] = []
exit_writes (e ∷ es) = keep (exit_text e) (exit_writes es)

abbrev pub exit_file : Effect → Option Bytes
exit_file (write_exit_code path text) = some path
exit_file _ = none

-- The paths of these attempts.
abbrev pub exit_files : List Effect → List Bytes
exit_files [] = []
exit_files (e ∷ es) = keep (exit_file e) (exit_files es)

-- Whether the process was waited for.
abbrev pub waited : List Effect → Bool
waited [] = false
waited (e ∷ es) = is_wait e || waited es

-- One attempt at writing the exit code, at the given path: that of the process if it was waited for,
-- and else 128. The result is a success only after the process was waited for.
abbrev pub Reported : Bytes → Option ℤ → Execution → Type 0
Reported path exit_code (effects, outcome) =
    (exit_writes effects
      ≡ (if waited effects then itoa (reported_code exit_code) else codes "128") ∷ [])
    × ((exit_files effects ≡ path ∷ []) × (outcome ≡ finished → waited effects ≡ true))

give_up-Reported :
    (exit_code : Option ℤ) (pod : PausePod) (c : Container) (e : ExecError)
    → e ≢ panics
    → Reported (exit_code_path (pod_dir pod) c.name) exit_code (give_up pod c e)
unfolding give_up
give_up-Reported exit_code pod c panics n = absurd (n refl)
give_up-Reported exit_code pod c env_file_failed n = (refl, (refl, λ f. cc))
give_up-Reported exit_code pod c env_file_not_written n = (refl, (refl, λ f. cc))
give_up-Reported exit_code pod c absolute_sub_path n = (refl, (refl, λ f. cc))
give_up-Reported exit_code pod c log_not_created n = (refl, (refl, λ f. cc))
give_up-Reported exit_code pod c start_failed n = (refl, (refl, λ f. cc))
give_up-Reported exit_code pod c id_not_written n = (refl, (refl, λ f. cc))
give_up-Reported exit_code pod c exit_code_not_written n = (refl, (refl, λ f. cc))
give_up-Reported exit_code pod c container_failed n = (refl, (refl, λ f. cc))
give_up-Reported exit_code pod c (sub_path_missing names) n = (refl, (refl, λ f. cc))

-- One more effect at the end, which is neither of the two.
exit_writes-last :
    (es : List Effect) (e : Effect)
    → exit_text e ≡ none
    → exit_writes (es ++ e ∷ []) ≡ exit_writes es
exit_writes-last [] e h = rw h refl
exit_writes-last (d ∷ es) e h = ap (keep (exit_text d)) (exit_writes-last es e h)

exit_files-last :
    (es : List Effect) (e : Effect) → exit_file e ≡ none → exit_files (es ++ e ∷ []) ≡ exit_files es
exit_files-last [] e h = rw h refl
exit_files-last (d ∷ es) e h = ap (keep (exit_file d)) (exit_files-last es e h)

waited-last :
    (es : List Effect) (e : Effect) → is_wait e ≡ false → waited (es ++ e ∷ []) ≡ waited es
waited-last [] e h = ground arith
waited-last (d ∷ es) e h = ap (λ (b : Bool). is_wait d || b) (waited-last es e h)

Reported-last :
    (path : Bytes) (exit_code : Option ℤ) (es : List Effect) (outcome : Outcome) (e : Effect)
    → exit_text e ≡ none
    → exit_file e ≡ none
    → is_wait e ≡ false
    → Reported path exit_code (es, outcome)
    → Reported path exit_code (es ++ e ∷ [], outcome)
Reported-last path exit_code es outcome e h g k r =
    rw (exit_writes-last es e h, exit_files-last es e g, waited-last es e k) r

module _ (h : Host) (pod : PausePod) (c : Container) where
  run_started-Reported :
      (pid : ℕ)
      → Reported (exit_code_path (pod_dir pod) c.name) h.exit_code (run_started h pod c pid)
  unfolding run_started give_up after_wait
  run_started-Reported pid = elim (Bool-cases h.id_writable) [
    | inl w ↦ rw w (refl, (refl, λ f. refl))
    | inr w ↦ rw w (refl, (refl, λ f. cc))
  ]

  run_command-Reported :
      (pid : Option ℕ)
      → Reported (exit_code_path (pod_dir pod) c.name) h.exit_code (run_command h pod c pid)
  unfolding run_command
  run_command-Reported none = give_up-Reported h.exit_code pod c start_failed (λ e. cc)
  run_command-Reported (some pid) = run_started-Reported pid

  run_logged-Reported :
      (args : List Bytes)
      → Reported (exit_code_path (pod_dir pod) c.name) h.exit_code (run_logged h pod c args)
  unfolding run_logged
  run_logged-Reported args = elim (Bool-cases h.log_creatable) [
    | inl l ↦ rw l (
        Reported-last (exit_code_path (pod_dir pod) c.name) h.exit_code
          (run_command h pod c h.started).0 (run_command h pod c h.started).1
          (close_log (logs_path (pod_dir pod) c.name)) refl refl refl
          (run_command-Reported h.started))
    | inr l ↦ rw l (give_up-Reported h.exit_code pod c log_not_created (λ e. cc))
  ]

  run_args-Reported :
      (r : Result (List Bytes))
      → r ≢ err panics
      → Reported (exit_code_path (pod_dir pod) c.name) h.exit_code (run_args h pod c r)
  unfolding run_args
  run_args-Reported (err e) n =
      give_up-Reported h.exit_code pod c e (λ q. n (ap (λ (x : ExecError). err x) q))
  run_args-Reported (ok args) n = run_logged-Reported args

  run_binds-Reported :
      (r : Result (List Bytes))
      → r ≢ err panics
      → Reported (exit_code_path (pod_dir pod) c.name) h.exit_code (run_binds h pod c r)
  unfolding run_binds
  run_binds-Reported (err e) n =
      give_up-Reported h.exit_code pod c e (λ q. n (ap (λ (x : ExecError). err x) q))
  run_binds-Reported (ok binds) n = run_args-Reported _ (apptainer_args-ne-panics h pod c binds)

  run_envs-Reported :
      (r : Result (List EnvVar))
      → r ≢ err panics
      → Reported (exit_code_path (pod_dir pod) c.name) h.exit_code (run_envs h pod c r)
  unfolding run_envs
  run_envs-Reported (err e) n =
      give_up-Reported h.exit_code pod c e (λ q. n (ap (λ (x : ExecError). err x) q))
  run_envs-Reported (ok envs) n =
      run_binds-Reported _ (bind_mounts-ne-panics (volume_dir (pod_dir pod)) envs c.volume_mounts)

  after_env_write-ne-panics :
      (writable : Bool) (envs : List EnvVar) → after_env_write writable envs ≢ err panics
  unfolding after_env_write
  after_env_write-ne-panics true envs q = cc
  after_env_write-ne-panics false envs q = cc

  read_env_file-Reported :
      (quote : Bytes → Bytes) (output : Option Bytes)
      → let (env_effects, envs) = read_env_file h quote pod c output in
        let (effects, outcome) = run_envs h pod c envs in
        Reported (exit_code_path (pod_dir pod) c.name) h.exit_code (env_effects ++ effects, outcome)
  unfolding read_env_file
  read_env_file-Reported quote none = run_envs-Reported (err env_file_failed) (λ e. cc)
  read_env_file-Reported quote (some output) =
      run_envs-Reported (after_env_write h.env_writable (parse_env_vars output))
        (after_env_write-ne-panics h.env_writable (parse_env_vars output))

  container_envs-Reported :
      (has_env_file : Bool) (quote : Bytes → Bytes)
      → let (env_effects, envs) = container_envs has_env_file h quote pod c in
        let (effects, outcome) = run_envs h pod c envs in
        Reported (exit_code_path (pod_dir pod) c.name) h.exit_code (env_effects ++ effects, outcome)
  unfolding container_envs
  container_envs-Reported true quote = read_env_file-Reported quote h.env_output
  container_envs-Reported false quote = run_envs-Reported (ok c.env) (λ e. cc)

  -- However the run of a container goes, whatever fails on the way, exactly one attempt is made at
  -- writing an exit code, at the path of its exit code file, and if the process was waited for, the text is its exit code (128 for a
  -- process that a signal ended), and otherwise 128. The run is a success only if the process was
  -- waited for.
  pub execute_container-Reported :
      (quote : Bytes → Bytes)
      → Reported (exit_code_path (pod_dir pod) c.name) h.exit_code (execute_container h quote pod c)
  unfolding execute_container
  execute_container-Reported quote = container_envs-Reported h.has_env_file quote
