-- ===== src/Pause/Examples.antt =====
-- Tests and instances for cmd/hpk-pause/main.go.
use hpktainer.Base.{
  ℕ, Bool, true, false, Option, none, some, [], ◌∷◌, Bytes, codes, ◌≡◌, refl, pos, arith, int32,
  beq, ◌==◌, if◌then◌else◌,
}
use hpktainer.Cancel.{sigterm}
use hpktainer.Pod.{ContainerStatus}
use hpktainer.Containers.{Disk, content, handle_status}
use hpktainer.Endpoint.{exit_code_path}
use hpktainer.Pause.Tracker.{signal_all, group, process}
use hpktainer.Pause.Lifecycle.{
  waiting_for_context, before_init, starting, returned, listening, Pause, start_pause, move,
  start_container, start_process, process_starts, container_done, signal_arrives, take_signal,
  close_done, cancel_context, prepared, all_init, start_main, all_started, context_done, main_ends,
  taken, closed, drained, internal, signal, Steps, here, next, Reachable,
}
use hpktainer.Pause.Shutdown.{returned-waiting, returned-orphans}
use hpktainer.Pause.EnvFile.{parse_env_vars, print_env_vars, parse-print}
use hpktainer.Pause.Arguments.{Host, PausePod, Container, pod_dir}
use hpktainer.Pause.Execution.{execute_container}
use hpktainer.Pause.Execution.ExitCode.{exit_writes, waited, Reported, execute_container-Reported}
use hpktainer.Pause.Handover.{terminated_code, outcome_code, handle_status-execute_container}

abbrev getpgid : ℕ → Option ℕ
getpgid pid = if pid == 7 then some 7 else if pid == 8 then some 1 else none

signalled :
    signal_all getpgid sigterm (7 ∷ 8 ∷ 9 ∷ [])
    ≡ group 7 sigterm ∷ process 8 sigterm ∷ process 9 sigterm ∷ []
unfolding signal_all
signalled = refl

-- One container: it is started, the signal is taken, and it ends.
abbrev waiting : Pause
waiting = move waiting_for_context (
    start_process 0
      (start_container 0 (move (starting 1) (move (before_init 0) (start_pause 0 1)))))

waiting_reached : Reachable 0 1 waiting
unfolding start_pause move start_container start_process
waiting_reached =
    next
      (next
        (next (next (next here (internal (prepared refl))) (internal (all_init refl)))
          (internal (start_main 0 refl)))
        (internal (process_starts 0 tt refl)))
      (internal (all_started refl))

abbrev ended : Pause
ended =
    move returned
      (cancel_context (close_done (container_done 0 (take_signal (signal_arrives waiting)))))

ended_after : Steps waiting ended
unfolding start_pause move start_container start_process container_done signal_arrives take_signal
    close_done cancel_context
ended_after =
    next
      (next
        (next
          (next (next (next here (signal tt)) (internal (taken tt refl refl)))
            (internal (main_ends 0 tt refl)))
          (internal (closed tt tt refl refl refl)))
        (internal (drained tt tt refl)))
      (internal (context_done refl refl))

waits : waiting.position ≡ waiting_for_context
unfolding move
waits = refl

listens : waiting.handler ≡ listening
unfolding start_pause move start_container start_process
listens = refl

ends : ended.position ≡ returned
unfolding move
ends = refl

returned-waiting_example : (ended.unstarted ≡ 0) × (ended.waiting ≡ 0)
returned-waiting_example = returned-waiting 0 1 waiting_reached waits listens ended_after ends

returned-orphans_example :
    (p : Pause) × (Reachable 1 2 p × ((p.position ≡ returned) × (p.waiting ≡ 2)))
returned-orphans_example = returned-orphans 1 2

abbrev told : Pause
told = take_signal (signal_arrives waiting)

parse-print_example :
    parse_env_vars (
      print_env_vars (
        record { name = codes "A"; value = codes "b=c" }
        ∷ record { name = codes "E"; value = [] }
        ∷ []))
    ≡ record { name = codes "A"; value = codes "b=c" }
      ∷ record { name = codes "E"; value = [] }
      ∷ []
parse-print_example =
    parse-print
      (record { name = codes "A"; value = codes "b=c" }
        ∷ record { name = codes "E"; value = [] }
        ∷ [])
      (ground arith)

abbrev host : Host
host = record {
  is_debug = false;
  has_env_file = true;
  has_env_file_later = true;
  has_resolv_conf = true;
  env_output = some (codes "A=b");
  env_writable = true;
  log_creatable = true;
  id_writable = true;
  exit_code_writable = true;
  started = some 42;
  start_time = 7;
  exit_code = some (pos 3);
  wait_ok = false;
}

abbrev pod : PausePod
pod = record {
  namespace = codes "ns";
  name = codes "web";
  working_directory = codes "/home/user";
  security_context = none;
}

abbrev main_container : Container
main_container = record {
  name = codes "app";
  image = codes "busybox";
  command = some (codes "sh" ∷ []);
  args = codes "$(A)" ∷ [];
  env = [];
  volume_mounts =
      record {
        name = codes "data";
        mount_path = codes "/data";
        sub_path = codes "sub";
        sub_path_expr = [];
        read_only = true;
      }
      ∷ [];
  security_context = none;
}

execute_container-Reported_example :
    Reported
      (exit_code_path (pod_dir pod) main_container.name)
      (some (pos 3))
      (execute_container host (λ s. s) pod main_container)
execute_container-Reported_example = execute_container-Reported host pod main_container (λ s. s)

abbrev failing : Host
failing = record host { env_output = none }

abbrev disk : Disk
disk path attempt = content (codes "128")

abbrev status : ContainerStatus
status = record {
  name = codes "app";
  state = record { waiting = none; running = none; terminated = none };
  last_termination_state = record { waiting = none; running = none; terminated = none };
  ready = false;
  restart_count = 0;
  container_id = [];
  started = none;
}

wrote_128 : exit_writes (execute_container failing (λ s. s) pod main_container).0 ≡ codes "128" ∷ []
unfolding execute_container
wrote_128 = refl

handle_status-execute_container_example :
    terminated_code (handle_status disk (pod_dir pod) 5 status).state
    ≡ some (
        int32 (
          outcome_code
            (waited (execute_container failing (λ s. s) pod main_container).0)
            (some (pos 3))))
handle_status-execute_container_example =
    handle_status-execute_container failing (λ s. s) pod main_container disk 5 0 status
      (codes "128") (omega arith) (omega arith) wrote_128 refl

abbrev resolv_conf : Bytes → Option Bytes
resolv_conf path = some (codes "nameserver 127.0.0.1\nsearch lan")

abbrev loopback : Bytes → Option Bool
loopback address = some (beq address (codes "127.0.0.1"))
