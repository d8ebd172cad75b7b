-- ===== src/Identity.antt =====
-- internal/compute/runtime/cancel.go: whether a process is dead, and whether it is the recorded one. The
-- operating system is outside: its answers are the record Os.
use hpktainer.Base.{
  ℕ, Bool, true, false, Option, none, some, Bytes, if◌then◌else◌, ◌==◌, ◌||◌, ltb, fields,
  parse_uint, get_elem?, after_last,
}

-- What syscall.Kill returns: nil, ESRCH, or another error.
pub data KillResult : Type 0 where
  delivered no_such_process other_error : KillResult

-- The answers that isProcessDead sees in one call.
pub record Probe : Type 0 where
  pub kill_zero : KillResult
  pub priority_esrch : Bool
  pub pgid_esrch : Bool
  pub stat : Option Bytes

-- The state letter, data[idx+2] behind the last ')'.
unfoldable pub stat_state : Option Bytes → Option ℕ
stat_state none = none
stat_state (some content) = elim (after_last b')' content) [
  | none ↦ none
  | some rest ↦ get_elem? rest 1
]

unfoldable pub is_dead_state : Option ℕ → Bool
is_dead_state none = false
is_dead_state (some state) = state == b'Z' || state == b'X'

unfoldable pub alive_or_dead : KillResult → Probe → Bool
unfolding is_dead_state stat_state
alive_or_dead no_such_process p = true
alive_or_dead other_error p = false
alive_or_dead delivered p = p.priority_esrch || (p.pgid_esrch || is_dead_state (stat_state p.stat))

unfoldable pub is_process_dead : Probe → Bool
unfolding alive_or_dead
is_process_dead p = alive_or_dead p.kill_zero p

-- fields[19] behind the last ')' of /proc/<pid>/stat, if the file can be read.
unfoldable pub get_process_start_time : Option Bytes → Option ℕ
get_process_start_time none = none
get_process_start_time (some content) = elim (after_last b')' content) [
  | none ↦ none
  | some rest ↦ elim (get_elem? (fields rest) 19) [ none ↦ none | some f ↦ parse_uint f ]
]

-- The system that the code meets: whether /proc is there, the stat file of a process at the time of
-- its verification, the results of the two signals to the primary process, what the calls of
-- isProcessDead see one after the other, and by how much the pauses last longer than asked.
pub record Os : Type 0 where
  pub has_proc : Bool
  pub stat_of : ℕ → Option Bytes
  pub on_sigterm : KillResult
  pub on_sigkill : KillResult
  pub probe : ℕ → Probe
  pub late : ℕ → ℕ

unfoldable pub same_start : Option ℕ → ℕ → Bool
same_start none recorded = false
same_start (some current) recorded = if ltb 0 recorded then current == recorded else true

unfoldable pub verify_process_identity : Os → ℕ → ℕ → Bool
unfolding same_start
verify_process_identity os pid recorded_start_time =
    if os.has_proc
    then same_start (get_process_start_time (os.stat_of pid)) recorded_start_time
    else true
