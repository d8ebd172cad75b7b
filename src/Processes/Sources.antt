-- ===== src/Processes/Sources.antt =====
-- Where the process ids of a pod come from (internal/compute/podhandler/podhandler.go).
use hpktainer.Base.{
  ◌≡◌, Option, none, some, List, [], ◌∷◌, Bytes, beq, any, ◌||◌, arith, All, All-append, Bool-cases,
  Option-cases, inl, inr,
}
use hpktainer.Endpoint.{id_path, pause_job_id_path}
use hpktainer.Pod.{Pod}
use hpktainer.Containers.{Disk, read_string_from_file}
use hpktainer.Processes.{
  parse_process_pid, pid_in_file, first_pid, or_else, wrapper_pid_path,
  resolve_process_pid_from_control_files, note, collect, resolve_secondary_container_pids,
}

pub data Among (x : Bytes) : List Bytes → Type 0 where
  first : {xs : List Bytes} → Among x (x ∷ xs)
  later : {y : Bytes} {xs : List Bytes} → Among x xs → Among x (y ∷ xs)

-- The files that hold process ids of a pod.
pub data OwnFile (pod : Pod) (pod_dir : Bytes) : Bytes → Type 0 where
  pause_file : OwnFile pod pod_dir (pause_job_id_path pod_dir)
  container_file :
      {name : Bytes} → Among name pod.containers → OwnFile pod pod_dir (id_path pod_dir name)
  init_file :
      {name : Bytes} → Among name pod.init_containers → OwnFile pod pod_dir (id_path pod_dir name)
  wrapper_file : OwnFile pod pod_dir (wrapper_pid_path pod)

-- The text is the pid of one of these files.
pub record FromFile (disk : Disk) (pod : Pod) (pod_dir text : Bytes) : Type 0 where
  pub path : Bytes
  pub raw : Bytes
  pub own : OwnFile pod pod_dir path
  pub reads : read_string_from_file (disk path) ≡ some raw
  pub parses : parse_process_pid raw ≡ some text

module _ (disk : Disk) (pod : Pod) (pod_dir : Bytes) where
  abbrev pub From : Bytes → Type 0
  From text = FromFile disk pod pod_dir text

  From-path :
      (path text : Bytes) → OwnFile pod pod_dir path → pid_in_file disk path ≡ some text → From text
  unfolding pid_in_file
  From-path path text own h = elim (Option-cases (read_string_from_file (disk path))) [
    | inl e ↦ absurd (ground arith)
    | inr (raw, e) ↦ record { path = path; raw = raw; own = own; reads = e; parses = ground arith }
  ]

  module _ (names : List Bytes)
      (own : (name : Bytes) → Among name names → OwnFile pod pod_dir (id_path pod_dir name)) where
    first_pid-From :
        (rest : List Bytes) (text : Bytes)
        → ((name : Bytes) → Among name rest → Among name names)
        → first_pid disk pod_dir rest ≡ some text
        → From text
    unfolding first_pid
    first_pid-From [] text sub h = absurd (ground arith)
    first_pid-From (name ∷ rest) text sub h =
        elim (Option-cases (pid_in_file disk (id_path pod_dir name))) [
          | inl e ↦ first_pid-From rest text (λ n m. sub n (later m)) (ground arith)
          | inr (pid, e) ↦
              From-path (id_path pod_dir name) text (own name (sub name first)) (ground arith)
        ]

    note-From :
        (name : Bytes) (state : List Bytes × List Bytes)
        → Among name names
        → All From state.0
        → All From (note (pid_in_file disk (id_path pod_dir name)) state).0
    unfolding note
    note-From name state m h = elim (Option-cases (pid_in_file disk (id_path pod_dir name))) [
      | inl e ↦ rw e h
      | inr (pid, e) ↦ elim (Bool-cases (any (beq pid) state.1 || beq pid [])) [
        | inl b ↦ rw e (rw b h)
        | inr b ↦ rw e (
            rw b (
              All-append From state.0 (pid ∷ []) h
                (From-path (id_path pod_dir name) pid (own name m) e, tt)))
      ]
    ]

    collect-From :
        (rest : List Bytes) (state : List Bytes × List Bytes)
        → ((name : Bytes) → Among name rest → Among name names)
        → All From state.0
        → All From (collect disk pod_dir rest state).0
    unfolding collect
    collect-From [] state sub h = h
    collect-From (name ∷ rest) state sub h =
        collect-From rest _ (λ n m. sub n (later m)) (note-From name state (sub name first) h)

  or_else-From :
      (a b : Option Bytes) (text : Bytes)
      → (a ≡ some text → From text)
      → (b ≡ some text → From text)
      → or_else a b ≡ some text
      → From text
  unfolding or_else
  or_else-From (some pid) b text f g h = f h
  or_else-From none b text f g h = g h

  pub resolve-From :
      (text : Bytes)
      → resolve_process_pid_from_control_files disk pod pod_dir ≡ some text
      → From text
  unfolding resolve_process_pid_from_control_files
  resolve-From text =
      or_else-From _ _ text (From-path (pause_job_id_path pod_dir) text pause_file) (
        or_else-From _ _ text
          (first_pid-From pod.containers (λ n m. container_file m) pod.containers text (λ n m. m))
          (or_else-From _ _ text
            (first_pid-From pod.init_containers (λ n m. init_file m) pod.init_containers text
              (λ n m. m))
            (From-path (wrapper_pid_path pod) text wrapper_file)))

  pub secondary-From :
      (primary : Bytes) → All From (resolve_secondary_container_pids disk pod pod_dir primary)
  unfolding resolve_secondary_container_pids
  secondary-From primary =
      collect-From pod.init_containers (λ n m. init_file m) pod.init_containers _ (λ n m. m)
        (collect-From pod.containers (λ n m. container_file m) pod.containers _ (λ n m. m) tt)
