-- ===== src/JobId.antt =====
-- internal/compute/runtime/idtype.go: process job ids, "pid://<pid>:<starttime>". A process id that
-- is formatted comes from the operating system and is a natural number; start times are uint64.
pub mod RoundTrip
pub mod Plain
pub mod Range
pub mod Examples
use hpktainer.Base.{
  ℕ, Option, none, some, List, [], ◌∷◌, ◌++◌, Bytes, codes, if◌then◌else◌, ◌==◌, ltb, trim_space,
  has_prefix, cut_prefix, split, format_uint, parse_uint, parse_magnitude, max_i64,
}

abbrev pub job_id_type_process : Bytes
job_id_type_process = codes "pid://"

unfoldable pub format_process_job_id : ℕ → ℕ → Bytes
format_process_job_id pid start_time =
    if ltb 0 start_time
    then job_id_type_process ++ (format_uint pid ++ b':' ∷ format_uint start_time)
    else job_id_type_process ++ format_uint pid

-- The errors of ParseProcessJobID.
pub data JobIdError : Type 0 where
  empty_process_id invalid_format invalid_pid invalid_starttime : JobIdError

pub data Parsed : Type 0 where
  parsed : ℕ → ℕ → Parsed
  refused : JobIdError → Parsed

-- strconv.Atoi with `p <= 0` refused: a sign is read, and a negative number is never a pid.
unfoldable pub positive_int : Bytes → Option ℕ
positive_int [] = none
positive_int (c ∷ s) =
    elim (if c == b'-'
      then none
      else if c == b'+'
      then parse_magnitude max_i64 s
      else parse_magnitude max_i64 (c ∷ s)) [
        | none ↦ none
        | some p ↦ if ltb 0 p then some p else none
      ]

unfoldable pub parse_parts : List Bytes → Parsed
parse_parts [] = refused invalid_pid
parse_parts (first ∷ []) = elim (positive_int first) [
  | none ↦ refused invalid_pid
  | some p ↦ parsed p 0
]
parse_parts (first ∷ second ∷ []) = elim (positive_int first) [
  | none ↦ refused invalid_pid
  | some p ↦ elim (parse_uint second) [ none ↦ refused invalid_starttime | some st ↦ parsed p st ]
]
parse_parts (_ ∷ _ ∷ _ ∷ _) = refused invalid_format

-- `if strings.HasPrefix(val, "pid://") { val = strings.TrimSpace(strings.TrimPrefix(val, "pid://")) }`.
strip_type : Bytes → Bytes
strip_type val = elim (cut_prefix val job_id_type_process) [
  | none ↦ val
  | some rest ↦ trim_space rest
]

pub parse_value : Bytes → Parsed
unfolding parse_parts
parse_value [] = refused empty_process_id
parse_value (c ∷ s) = parse_parts (split (c ∷ s) b':')

unfoldable pub parse_process_job_id : Bytes → Parsed
unfolding parse_value strip_type
parse_process_job_id raw = parse_value (strip_type (trim_space raw))

-- parts[1] of strings.Split(raw, "pid://") for a raw text that begins with the separator: the text
-- between the first separator and the next.
until_type : Bytes → Bytes
until_type [] = []
until_type (c ∷ s) = if has_prefix (c ∷ s) job_id_type_process then [] else c ∷ until_type s

pub parse_id_type : Bytes → Bytes
unfolding until_type
parse_id_type raw = elim (cut_prefix raw job_id_type_process) [
  | none ↦ trim_space raw
  | some rest ↦ until_type rest
]
