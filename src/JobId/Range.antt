-- ===== src/JobId/Range.antt =====
-- The range of what ParseProcessJobID accepts (internal/compute/runtime/idtype.go).
use hpktainer.Base.{
  ℕ, ◌≤◌, ◌<◌, ◌≡◌, List, [], ◌∷◌, some, Bytes, arith, trim_space, split, parse_uint-le,
  parse_magnitude-le, max_i64, max_u64,
}
use hpktainer.JobId.{
  parsed, positive_int, parse_parts, parse_value, strip_type, parse_process_job_id,
}

positive_int-range : (s : Bytes) (p : ℕ) → positive_int s ≡ some p → (0 < p) × (p ≤ max_i64)
unfolding positive_int
positive_int-range [] p e = ground arith
positive_int-range (c ∷ s) p e =
    ground (arith, parse_magnitude-le max_i64 p s, parse_magnitude-le max_i64 p (c ∷ s))

parse_parts-range :
    (parts : List Bytes) (p st : ℕ)
    → parse_parts parts ≡ parsed p st
    → (0 < p) × (p ≤ max_i64) × (st ≤ max_u64)
unfolding parse_parts
parse_parts-range [] p st e = ground arith
parse_parts-range (a ∷ []) p st e = ground (arith, positive_int-range a p)
parse_parts-range (a ∷ b ∷ []) p st e = ground (arith, positive_int-range a p, parse_uint-le st b)
parse_parts-range (a ∷ b ∷ c ∷ d) p st e = ground arith

parse_value-range :
    (s : Bytes) (p st : ℕ) → parse_value s ≡ parsed p st → (0 < p) × (p ≤ max_i64) × (st ≤ max_u64)
unfolding parse_value
parse_value-range [] p st e = ground arith
parse_value-range (c ∷ s) p st e = parse_parts-range (split (c ∷ s) b':') p st e

-- Whatever the text, a pid that ParseProcessJobID accepts is positive and fits an int, so that
-- neither 0 nor a negative number, which a kill would take for a process group, comes out of it; the
-- start time fits a uint64.
pub parse_process_job_id_range :
    (raw : Bytes) (p st : ℕ)
    → parse_process_job_id raw ≡ parsed p st
    → (0 < p) × (p ≤ max_i64) × (st ≤ max_u64)
unfolding parse_process_job_id
parse_process_job_id_range raw p st e = parse_value-range (strip_type (trim_space raw)) p st e
