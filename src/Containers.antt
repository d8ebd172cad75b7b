-- ===== src/Containers.antt =====
-- SyncContainerStatuses of internal/compute/podhandler/container.go, with the file readers and
-- HumanReadableCode of internal/compute/podhandler/podStatus.go. The disk says what each attempt at
-- reading a path gives; `now` is what metav1.Now reads.
pub mod Readers
pub mod States
pub mod Examples
use hpktainer.Base.{
  ℕ, zero, suc, Bool, true, false, Option, none, some, [], ◌∷◌, ◌++◌, Bytes, codes, ℤ, pos, negsuc,
  is_zero, int32, atoi, is_space, trim_left, trim_space, ◌==◌, ◌+◌, if◌then◌else◌, map,
}
use hpktainer.Endpoint.{pod_path, exit_code_path, id_path}
use hpktainer.Pod.{Pod, ContainerStatus, ContainerState}

pub data ReadOutcome : Type 0 where
  not_exist failure : ReadOutcome
  content : Bytes → ReadOutcome

-- A path and the number of the attempt.
abbrev pub Disk : Type 0
Disk = Bytes → ℕ → ReadOutcome

non_empty : Bytes → Option Bytes
non_empty [] = none
non_empty (c ∷ s) = some (c ∷ s)

-- The attempts left of readStringFromFile; an empty file is read again.
read_string : ℕ → ℕ → (ℕ → ReadOutcome) → Option Bytes
read_string zero attempt file = none
read_string (suc left) attempt file = elim (file attempt) [
  | not_exist ↦ none
  | failure ↦ none
  | content out ↦ elim (non_empty (trim_space out)) [
    | some val ↦ some val
    | none ↦ read_string left (suc attempt) file
  ]
]

unfoldable pub read_string_from_file : (ℕ → ReadOutcome) → Option Bytes
unfolding read_string non_empty
read_string_from_file file = read_string 3 0 file

until_space : Bytes → Bytes
until_space [] = []
until_space (c ∷ s) = if is_space c then [] else c ∷ until_space s

-- The first word that bufio.ScanWords finds.
first_word : Bytes → Option Bytes
unfolding until_space
first_word out = non_empty (until_space (trim_left out))

read_int : ℕ → ℕ → (ℕ → ReadOutcome) → Option ℤ
read_int zero attempt file = none
read_int (suc left) attempt file = elim (file attempt) [
  | not_exist ↦ none
  | failure ↦ none
  | content out ↦ elim (first_word out) [
    | some word ↦ atoi word
    | none ↦ read_int left (suc attempt) file
  ]
]

unfoldable pub read_int_from_file : (ℕ → ReadOutcome) → Option ℤ
unfolding read_int first_word non_empty
read_int_from_file file = read_int 3 0 file

human_readable : ℕ → Bytes
human_readable code =
    if code == 0
    then codes "Container exited"
    else if code == 1
    then codes "Application error"
    else if code == 125
    then codes "Container failed to run error"
    else if code == 126
    then codes "Command invoke error"
    else if code == 127
    then codes "File or directory not found"
    else if code == 128
    then codes "Invalid argument used on exit"
    else if code == 134
    then codes "Abnormal termination (SIGABRT)"
    else if code == 137
    then codes "Immediate termination (SIGKILL)"
    else if code == 139
    then codes "Segmentation fault (SIGSEGV)"
    else if code == 143
    then codes "Graceful termination (SIGTERM)"
    else if code == 255
    then codes "Exit Status Out Of Range"
    else codes "Unknown Exit Code"

pub human_readable_code : ℤ → Bytes
unfolding human_readable
human_readable_code (pos code) = human_readable code
human_readable_code (negsuc n) = codes "Unknown Exit Code"

-- When the container started, as its previous state tells.
started_at : ContainerState → ℕ
started_at s = elim (s.running) [
  | some t ↦ t
  | none ↦ elim (s.terminated) [ none ↦ 0 | some t ↦ t.started_at ]
]

abbrev pub has {ℓ} : {A : Type ℓ} → Option A → Bool
has none = false
has (some a) = true

unfoldable pub to_terminated : ℕ → ℤ → ContainerStatus → ContainerStatus
unfolding started_at
to_terminated now exit_code s = record s {
  last_termination_state = if has s.state.terminated then s.last_termination_state else s.state;
  restart_count =
      if has s.state.terminated
      then s.restart_count
      else if is_zero exit_code
      then s.restart_count
      else s.restart_count + 1;
  state = record {
    waiting = none;
    running = none;
    terminated = some (record {
      exit_code = int32 exit_code;
      signal = 0;
      reason =
          if is_zero exit_code then codes "Completed" else codes "Error(" ++ (s.name ++ codes ")");
      message =
          if is_zero exit_code
          then codes "Container successfully terminated"
          else human_readable_code exit_code;
      started_at = started_at s.state;
      finished_at = now;
      container_id = s.container_id;
    });
  };
}

unfoldable pub to_running : ℕ → Bytes → ContainerStatus → ContainerStatus
to_running now job_id s = if has s.state.running then s else record s {
  container_id = job_id;
  state = record { waiting = none; running = some now; terminated = none };
  started = some true;
  ready = true;
}

unfoldable pub to_waiting : ContainerStatus → ContainerStatus
to_waiting s = record s {
  state = record {
    waiting = some (record {
      reason = codes "ContainerStarting";
      message = codes "Container is starting on the host";
    });
    running = none;
    terminated = none;
  };
}

-- The cases of handleStatus, after the two files are read.
unfoldable pub next_status : ℕ → Option ℤ → Option Bytes → ContainerStatus → ContainerStatus
next_status now (some exit_code) job_id s = to_terminated now exit_code s
next_status now none (some job_id) s = to_running now job_id s
next_status now none none s = to_waiting s

unfoldable pub handle_status : Disk → Bytes → ℕ → ContainerStatus → ContainerStatus
unfolding next_status
handle_status disk pod_dir now s =
    next_status now (read_int_from_file (disk (exit_code_path pod_dir s.name)))
      (read_string_from_file (disk (id_path pod_dir s.name))) s

-- SyncContainerStatuses below the directory `hpk`.
unfoldable pub sync_container_statuses : Disk → Bytes → ℕ → Pod → Pod
sync_container_statuses disk hpk now pod =
    let handle = handle_status disk (pod_path hpk pod.namespace pod.name) now in
    record pod {
      status = record (pod.status) {
        init_container_statuses = map handle pod.status.init_container_statuses;
        container_statuses = map handle pod.status.container_statuses;
      };
    }
