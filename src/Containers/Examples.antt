-- ===== src/Containers/Examples.antt =====
-- Tests and instances for internal/compute/podhandler/container.go and the readers of podStatus.go.
use hpktainer.Base.{
  ℕ, zero, suc, ◌≡◌, refl, false, none, some, [], Bytes, codes, pos, if◌then◌else◌, inl, beq,
  trim_left, atoi, parse_magnitude,
}
use hpktainer.Endpoint.{exit_code_path, id_path}
use hpktainer.Pod.{ContainerStatus}
use hpktainer.Containers.{
  ReadOutcome, content, not_exist, Disk, handle_status, read_int_from_file, read_string_from_file,
}
use hpktainer.Containers.States.{Shows, handle_status-Shows}

-- Empty at first, as a file that is created before it is written.
abbrev late : Bytes → ℕ → ReadOutcome
late text zero = content []
late text (suc n) = content text

late_code : read_int_from_file (late (codes "137\n")) ≡ some (pos 137)
unfolding read_int_from_file trim_left atoi parse_magnitude
late_code = refl

abbrev fresh : ContainerStatus
fresh = record {
  name = codes "main";
  state = record { waiting = none; running = none; terminated = none };
  last_termination_state = record { waiting = none; running = none; terminated = none };
  ready = false;
  restart_count = 0;
  container_id = codes "ns_pod_main";
  started = none;
}

abbrev disk : Disk
disk path attempt =
    if beq path (exit_code_path (codes "/p") (codes "main")) then content (codes "1") else not_exist

handle_status-Shows_example :
    Shows
      (read_int_from_file (disk (exit_code_path (codes "/p") (codes "main"))))
      (read_string_from_file (disk (id_path (codes "/p") (codes "main"))))
      (handle_status disk (codes "/p") 5 fresh).state
handle_status-Shows_example = handle_status-Shows disk (codes "/p") 5 fresh (inl (refl, refl))
