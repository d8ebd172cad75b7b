-- ===== src/Pause/Execution.antt =====
-- executeContainer, handleInitContainers and resolveGracePeriod of cmd/hpk-pause/main.go: what is
-- done for a container, in order, deferred calls included. Log lines are left out.
pub mod ExitCode
use hpktainer.Base.{
  ℕ, Bool, true, false, Option, none, some, List, [], ◌∷◌, ◌++◌, Bytes, codes, ℤ, pos, negsuc, itoa,
  if◌then◌else◌,
}
use hpktainer.Endpoint.{volume_dir, id_path, exit_code_path, logs_path, env_file_path}
use hpktainer.Expansion.Callers.{EnvVar}
use hpktainer.JobId.{format_process_job_id}
use hpktainer.Pause.EnvFile.{parse_env_vars}
use hpktainer.Pause.Arguments.{
  Container, PausePod, Host, ExecError, env_file_failed, env_file_not_written, log_not_created,
  start_failed, id_not_written, exit_code_not_written, container_failed, panics, Result, ok, err,
  pod_dir, env_file_name, env_lines, bind_mounts, apptainer_args,
}

-- The attempts at writing a file carry its path and its content.
pub data Effect : Type 0 where
  run_env_file : Bytes → Effect
  write_env write_id write_exit_code : Bytes → Bytes → Effect
  create_log close_log : Bytes → Effect
  start : List Bytes → Effect
  track untrack wait : ℕ → Effect

pub data Outcome : Type 0 where
  finished : Outcome
  failed : ExecError → Outcome

abbrev pub Execution : Type 0
Execution = List Effect × Outcome

-- `_ = os.WriteFile(containerPath.ExitCodePath(), []byte("128"), 0644)` and the return of the error. A
-- panic writes nothing.
pub give_up : PausePod → Container → ExecError → Execution
give_up pod c panics = ([], failed panics)
give_up pod c e =
    (write_exit_code (exit_code_path (pod_dir pod) c.name) (codes "128") ∷ [], failed e)

after_env_write : Bool → List EnvVar → Result (List EnvVar)
after_env_write true envs = ok envs
after_env_write false envs = err env_file_not_written

-- Environment File Handling.
read_env_file :
    Host
    → (Bytes → Bytes)
    → PausePod
    → Container
    → Option Bytes
    → List Effect × Result (List EnvVar)
unfolding after_env_write
read_env_file h quote pod c none =
    (run_env_file (env_file_path (pod_dir pod) c.name) ∷ [], err env_file_failed)
read_env_file h quote pod c (some output) =
    let envs = parse_env_vars output in
    (
      run_env_file (env_file_path (pod_dir pod) c.name)
          ∷ write_env (env_file_name pod c) (env_lines quote envs)
          ∷ [],
      after_env_write h.env_writable envs,
    )

-- `if fileExists(envFilePath)`.
container_envs :
    Bool → Host → (Bytes → Bytes) → PausePod → Container → List Effect × Result (List EnvVar)
unfolding read_env_file
container_envs true h quote pod c = read_env_file h quote pod c h.env_output
container_envs false h quote pod c = ([], ok c.env)

-- The exit code of the process, or 128 if it has none or was ended by a signal.
unfoldable pub reported_code : Option ℤ → ℤ
reported_code (some (pos code)) = pos code
reported_code (some (negsuc n)) = pos 128
reported_code none = pos 128

after_wait : Host → Outcome
after_wait h =
    if h.exit_code_writable
    then (if h.wait_ok then finished else failed container_failed)
    else failed exit_code_not_written

-- From tracker.Add on: the id file, cmd.Wait() and the exit code file, and then the deferred Remove.
run_started : Host → PausePod → Container → ℕ → Execution
unfolding give_up after_wait
run_started h pod c pid =
    let id_file =
      write_id (id_path (pod_dir pod) c.name) (format_process_job_id pid h.start_time) in
    let exit_file =
      write_exit_code (exit_code_path (pod_dir pod) c.name) (itoa (reported_code h.exit_code)) in
    let (effects, outcome) =
      (if h.id_writable
        then (wait pid ∷ exit_file ∷ [], after_wait h)
        else give_up pod c id_not_written) in
    (track pid ∷ id_file ∷ (effects ++ untrack pid ∷ []), outcome)

run_command : Host → PausePod → Container → Option ℕ → Execution
unfolding run_started
run_command h pod c none = give_up pod c start_failed
run_command h pod c (some pid) = run_started h pod c pid

-- From os.Create on; the log file is closed at the end.
run_logged : Host → PausePod → Container → List Bytes → Execution
unfolding run_command
run_logged h pod c args =
    let log = logs_path (pod_dir pod) c.name in
    if h.log_creatable
    then (let (effects, outcome) = run_command h pod c h.started in
        (create_log log ∷ start args ∷ (effects ++ close_log log ∷ []), outcome))
    else (let (effects, outcome) = give_up pod c log_not_created in
        (create_log log ∷ effects, outcome))

run_args : Host → PausePod → Container → Result (List Bytes) → Execution
unfolding run_logged
run_args h pod c (err e) = give_up pod c e
run_args h pod c (ok args) = run_logged h pod c args

run_binds : Host → PausePod → Container → Result (List Bytes) → Execution
unfolding run_args
run_binds h pod c (err e) = give_up pod c e
run_binds h pod c (ok binds) = run_args h pod c (apptainer_args h pod c binds)

run_envs : Host → PausePod → Container → Result (List EnvVar) → Execution
unfolding run_binds
run_envs h pod c (err e) = give_up pod c e
run_envs h pod c (ok envs) =
    run_binds h pod c (bind_mounts (volume_dir (pod_dir pod)) envs c.volume_mounts)

-- executeContainer.
unfoldable pub execute_container : Host → (Bytes → Bytes) → PausePod → Container → Execution
unfolding container_envs run_envs
execute_container h quote pod c =
    let (env_effects, envs) = container_envs h.has_env_file h quote pod c in
    let (effects, outcome) = run_envs h pod c envs in (env_effects ++ effects, outcome)

init_after : Execution → Execution → Execution
init_after (effects, finished) (later, outcome) = (effects ++ later, outcome)
init_after (effects, failed e) rest = (effects, failed e)

-- handleInitContainers: one after another, until one fails.
unfoldable pub handle_init_containers :
    (Bytes → Host) → (Bytes → Bytes) → PausePod → List Container → Execution
unfolding init_after
handle_init_containers host quote pod [] = ([], finished)
handle_init_containers host quote pod (c ∷ cs) =
    init_after (execute_container (host c.name) quote pod c)
      (handle_init_containers host quote pod cs)

-- resolveGracePeriod, in seconds.
unfoldable pub resolve_grace_period : Option ℤ → ℕ
resolve_grace_period (some (pos seconds)) = seconds
resolve_grace_period (some (negsuc n)) = 30
resolve_grace_period none = 30
