-- ===== src/JobId/Examples.antt =====
-- Tests and instances for internal/compute/runtime/idtype.go.
use hpktainer.Base.{
  ◌≡◌, refl, codes, arith, cut_prefix, trim_space, split, parse_uint, parse_magnitude, format_uint,
  has_prefix,
}
use hpktainer.JobId.{
  format_process_job_id, parsed, refused, invalid_pid, invalid_format, empty_process_id,
  positive_int, parse_parts, parse_process_job_id, parse_id_type,
}
use hpktainer.JobId.RoundTrip.{parse-format}

reads : parse_process_job_id (codes " pid:// 12345:67890\n") ≡ parsed 12345 67890
unfolding parse_process_job_id parse_parts positive_int cut_prefix trim_space split parse_uint
    parse_magnitude
reads = refl

refuses :
    (parse_process_job_id (codes "-4") ≡ refused invalid_pid)
    × (parse_process_job_id (codes "1:2:3") ≡ refused invalid_format)
    × (parse_process_job_id (codes "pid://") ≡ refused empty_process_id)
unfolding parse_process_job_id parse_parts positive_int cut_prefix trim_space split parse_uint
    parse_magnitude
refuses = (refl, refl, refl)

id_type : parse_id_type (codes "pid://12pid://3") ≡ codes "12"
unfolding parse_id_type cut_prefix has_prefix
id_type = refl

writes : format_process_job_id 42 1007 ≡ codes "pid://42:1007"
unfolding format_process_job_id format_uint
writes = refl

parse-format_example : parse_process_job_id (format_process_job_id 12345 67890) ≡ parsed 12345 67890
parse-format_example = parse-format 12345 67890 (omega arith) (omega arith) (omega arith)
