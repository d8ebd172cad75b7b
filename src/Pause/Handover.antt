-- ===== src/Pause/Handover.antt =====
-- From cmd/hpk-pause/main.go to the kubelet: the exit code file that executeContainer writes, as
-- SyncContainerStatuses of internal/compute/podhandler/container.go reads it.
use hpktainer.Base.{
  ℕ, ◌<◌, ◌≤◌, ◌≡◌, ◌∙◌, refl, sym, Bool, true, false, Option, none, some, [], ◌∷◌, Bytes, codes, ℤ,
  pos, negsuc, itoa, int32, format_uint, max_i64, arith, if◌then◌else◌,
}
use hpktainer.Endpoint.{exit_code_path, id_path}
use hpktainer.Pod.{ContainerState, ContainerStatus}
use hpktainer.Containers.{
  Disk, handle_status, next_status, to_terminated, read_int_from_file, read_string_from_file,
}
use hpktainer.Containers.Readers.{Holds, read_int_from_file-exit_code}
use hpktainer.Pause.Arguments.{Host, PausePod, Container, pod_dir}
use hpktainer.Pause.Execution.{execute_container, reported_code}
use hpktainer.Pause.Execution.ExitCode.{exit_writes, waited, execute_container-Reported}

abbrev pub terminated_code : ContainerState → Option ℤ
terminated_code s = elim (s.terminated) [ none ↦ none | some t ↦ some t.exit_code ]

-- The code that the run of a container reports.
abbrev pub outcome_code : Bool → Option ℤ → ℤ
outcome_code true exit_code = reported_code exit_code
outcome_code false exit_code = pos 128

-- An exit code of the process fits in an int.
abbrev pub Fits : Option ℤ → Type 0
Fits (some (pos code)) = code ≤ max_i64
Fits _ = Unit

reported-natural :
    (b : Bool) (exit_code : Option ℤ)
    → Fits exit_code
    → (n : ℕ) × ((outcome_code b exit_code ≡ pos n) × (n ≤ max_i64))
unfolding reported_code
reported-natural false exit_code f = (128, (refl, omega arith))
reported-natural true none f = (128, (refl, omega arith))
reported-natural true (some (pos code)) f = (code, (refl, f))
reported-natural true (some (negsuc m)) f = (128, (refl, omega arith))

text-outcome_code :
    (b : Bool) (exit_code : Option ℤ)
    → (if b then itoa (reported_code exit_code) else codes "128") ≡ itoa (outcome_code b exit_code)
unfolding itoa format_uint
text-outcome_code true exit_code = refl
text-outcome_code false exit_code = refl

terminated-next_status :
    (now : ℕ) (code : ℤ) (job_id : Option Bytes) (s : ContainerStatus)
    → terminated_code (next_status now (some code) job_id s).state ≡ some (int32 code)
unfolding next_status to_terminated
terminated-next_status now code job_id s = refl

read-handle_status :
    (disk : Disk) (dir : Bytes) (now : ℕ) (s : ContainerStatus) (code : ℤ)
    → read_int_from_file (disk (exit_code_path dir s.name)) ≡ some code
    → terminated_code (handle_status disk dir now s).state ≡ some (int32 code)
unfolding handle_status
read-handle_status disk dir now s code e =
    rw e (terminated-next_status now code (read_string_from_file (disk (id_path dir s.name))) s)

itoa-natural : (n : ℕ) → itoa (pos n) ≡ format_uint n
unfolding itoa
itoa-natural n = refl

read-itoa :
    (k : ℕ) (code : ℤ) (file : ℕ → _)
    → k < 3
    → (n : ℕ) × ((code ≡ pos n) × (n ≤ max_i64))
    → Holds k 0 (itoa code) file
    → read_int_from_file file ≡ some code
read-itoa k code file l (n, (e, b)) h =
    rw e (read_int_from_file-exit_code k n file l b (rw (← itoa-natural n) (rw (← e) h)))

head_eq : (a b : Bytes) → a ∷ [] ≡ b ∷ [] → a ≡ b
head_eq a b e = cc

module _ (h : Host) (quote : Bytes → Bytes) (pod : PausePod) (c : Container) where
  -- What hpk-pause reports of a container is what the kubelet sees: if the text that the run of the
  -- container attempts to write stands in the exit code file that the kubelet reads for the status,
  -- also while the file is still empty for up to two attempts, then the status becomes terminated with
  -- that exit code as an int32: the code of the process if it was waited for (128 if a signal ended
  -- it), and else 128. The exit code of the process fits in 63 bits.
  pub handle_status-execute_container :
      (disk : Disk) (now k : ℕ) (s : ContainerStatus) (text : Bytes)
      → k < 3
      → Fits h.exit_code
      → exit_writes (execute_container h quote pod c).0 ≡ text ∷ []
      → Holds k 0 text (disk (exit_code_path (pod_dir pod) s.name))
      → terminated_code (handle_status disk (pod_dir pod) now s).state
        ≡ some (int32 (outcome_code (waited (execute_container h quote pod c).0) h.exit_code))
  handle_status-execute_container disk now k s text l f w holds =
      let b = waited (execute_container h quote pod c).0 in
      let report = execute_container-Reported h pod c quote in
      let same : text ≡ itoa (outcome_code b h.exit_code) =
        head_eq _ _ (sym w ∙ report.0) ∙ text-outcome_code b h.exit_code in
      read-handle_status disk (pod_dir pod) now s (outcome_code b h.exit_code) (
        read-itoa k (outcome_code b h.exit_code) (disk (exit_code_path (pod_dir pod) s.name)) l
          (reported-natural b h.exit_code f) (rw (← same) holds))
