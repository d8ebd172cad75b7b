-- ===== src/Processes/Ids.antt =====
-- The process ids that internal/compute/podhandler/podhandler.go passes on.
use hpktainer.Base.{
  ◌≡◌, ◌∙◌, ap, refl, some, ◌∷◌, Bytes, ltb, arith, Bool-cases, inl, inr, ◌++◌, format_uint,
  format_uint-Digits, trim_space, trim_space-Solid, All-append,
}
use hpktainer.JobId.{Parsed, parsed, refused, parse_process_job_id}
use hpktainer.JobId.Plain.{parse-plain_pid, parse-plain_pid_start}
use hpktainer.JobId.RoundTrip.{Digits-Solid}
use hpktainer.JobId.Range.{parse_process_job_id_range}
use hpktainer.Processes.{plain_pid, parse_process_pid}

parse-plain_pid_lem :
    (raw : Bytes) (r : Parsed) (text : Bytes)
    → parse_process_job_id raw ≡ r
    → plain_pid r ≡ some text
    → parse_process_job_id text ≡ r
unfolding plain_pid
parse-plain_pid_lem raw (refused e) text h k = ground arith
parse-plain_pid_lem raw (parsed pid start) text h k =
    let (p, q, r) = parse_process_job_id_range raw pid start h in
    elim (Bool-cases (ltb 0 start)) [
      | inl e ↦ ground (arith, parse-plain_pid_start pid p q start r)
      | inr e ↦ ground (arith, parse-plain_pid pid p q)
    ]

-- The text that is passed on to the kill names the same process and start time as the text of the
-- control file.
pub parse-parse_process_pid :
    (raw text : Bytes)
    → parse_process_pid raw ≡ some text
    → parse_process_job_id text ≡ parse_process_job_id raw
unfolding parse_process_pid
parse-parse_process_pid raw text h = parse-plain_pid_lem raw (parse_process_job_id raw) text refl h

plain_pid-trimmed : (r : Parsed) (text : Bytes) → plain_pid r ≡ some text → trim_space text ≡ text
unfolding plain_pid
plain_pid-trimmed (refused e) text k = ground arith
plain_pid-trimmed (parsed pid start) text k = elim (Bool-cases (ltb 0 start)) [
  | inl e ↦ ground (
    arith,
    trim_space-Solid (format_uint pid ++ b':' ∷ format_uint start) (
        All-append _ (format_uint pid) (b':' ∷ format_uint start)
          (Digits-Solid _ (format_uint-Digits pid))
          (refl, Digits-Solid _ (format_uint-Digits start))),
  )
  | inr e ↦
      ground (arith, trim_space-Solid (format_uint pid) (Digits-Solid _ (format_uint-Digits pid)))
]

-- The kill trims the text first; there is nothing to trim.
pub parse-trimmed_pid :
    (raw text : Bytes)
    → parse_process_pid raw ≡ some text
    → parse_process_job_id (trim_space text) ≡ parse_process_job_id raw
unfolding parse_process_pid
parse-trimmed_pid raw text h =
    ap parse_process_job_id (plain_pid-trimmed (parse_process_job_id raw) text h)
    ∙ parse-parse_process_pid raw text h
