-- ===== src/JobId/RoundTrip.antt =====
-- Process ids are read back as they were written (internal/compute/runtime/idtype.go).
use hpktainer.Base.{
  ℕ, ◌≤◌, ◌<◌, ◌≡◌, ◌≢◌, ◌∙◌, refl, ap, some, [], ◌∷◌, ◌++◌, Bytes, ltb, arith, Bool-cases, inl,
  inr, Lacks, List, Solid, append-cons-ne-nil, trim_space-Solid, cut_prefix-append, split,
  split-Lacks, split-append, All-append, format_uint, Digits, format_uint-Digits,
  format_uint-ne-nil, parse_uint-format_uint, parse_magnitude, parse_magnitude-format_uint, max_i64,
  max_u64,
}
use hpktainer.JobId.{
  format_process_job_id, job_id_type_process, parsed, positive_int, parse_parts, strip_type,
  parse_value, parse_process_job_id,
}

pub Digits-Solid : (s : Bytes) → Digits s → Solid s
Digits-Solid [] h = tt
Digits-Solid (c ∷ s) h = (ground arith, Digits-Solid s h.1)

pub Digits-Lacks : (s : Bytes) → Digits s → Lacks b':' s
Digits-Lacks [] h = tt
Digits-Lacks (c ∷ s) h = (ground arith, Digits-Lacks s h.1)

positive_int-Digits :
    (s : Bytes)
    → s ≢ []
    → Digits s
    → (n : ℕ) → 0 < n
    → parse_magnitude max_i64 s ≡ some n
    → positive_int s ≡ some n
unfolding positive_int
positive_int-Digits [] h d n p e = absurd (h refl)
positive_int-Digits (c ∷ s) h d n p e = ground arith

strip_type_lem : (s : Bytes) → Solid s → strip_type (job_id_type_process ++ s) ≡ s
unfolding strip_type
strip_type_lem s h = ground (arith, cut_prefix-append job_id_type_process s, trim_space-Solid s h)

pub parse_value-parts : (s : Bytes) → s ≢ [] → parse_value s ≡ parse_parts (split s b':')
unfolding parse_value
parse_value-parts [] h = absurd (h refl)
parse_value-parts (c ∷ s) h = refl

-- Behind the type the parts of a solid text are read.
parse_typed :
    (s : Bytes)
    → Solid s
    → s ≢ []
    → parse_process_job_id (job_id_type_process ++ s) ≡ parse_parts (split s b':')
unfolding parse_process_job_id
parse_typed s h n =
    let solid : Solid (job_id_type_process ++ s) =
      (refl, (refl, (refl, (refl, (refl, (refl, h)))))) in
    ap (λ (x : Bytes). parse_value (strip_type x))
      (trim_space-Solid (job_id_type_process ++ s) solid)
    ∙ ap parse_value (strip_type_lem s h)
    ∙ parse_value-parts s n

module _ (pid : ℕ) (p : 0 < pid) (q : pid ≤ max_i64) where
  pub read_pid : positive_int (format_uint pid) ≡ some pid
  read_pid =
      positive_int-Digits (format_uint pid) (format_uint-ne-nil pid) (format_uint-Digits pid) pid p
        (parse_magnitude-format_uint max_i64 pid q)

  pid_alone : parse_process_job_id (job_id_type_process ++ format_uint pid) ≡ parsed pid 0
  unfolding parse_parts
  pid_alone =
      let d = format_uint-Digits pid in
      parse_typed (format_uint pid) (Digits-Solid _ d) (format_uint-ne-nil pid)
      ∙ ap parse_parts (split-Lacks (format_uint pid) b':' (Digits-Lacks _ d))
      ∙ ground (arith, read_pid)

  pid_with_start :
      (start_time : ℕ)
      → start_time ≤ max_u64
      → parse_process_job_id
          (job_id_type_process ++ (format_uint pid ++ b':' ∷ format_uint start_time))
        ≡ parsed pid start_time
  unfolding parse_parts
  pid_with_start st r =
      let d = format_uint-Digits pid in
      let d' = format_uint-Digits st in
      parse_typed (format_uint pid ++ b':' ∷ format_uint st)
        (All-append _ (format_uint pid) (b':' ∷ format_uint st) (Digits-Solid _ d)
          (refl, Digits-Solid _ d'))
        (append-cons-ne-nil (format_uint pid) b':' (format_uint st))
      ∙ ap parse_parts (split-append (format_uint pid) (format_uint st) b':' (Digits-Lacks _ d))
      ∙ ap (λ (x : List Bytes). parse_parts (format_uint pid ∷ x))
          (split-Lacks (format_uint st) b':' (Digits-Lacks _ d'))
      ∙ ground (arith, read_pid, parse_uint-format_uint st r)

-- ParseProcessJobID undoes FormatProcessJobID for every positive pid of an int and every uint64 start
-- time, whether or not a start time is known.
pub parse-format :
    (pid start_time : ℕ)
    → 0 < pid
    → pid ≤ max_i64
    → start_time ≤ max_u64
    → parse_process_job_id (format_process_job_id pid start_time) ≡ parsed pid start_time
unfolding format_process_job_id
parse-format pid start_time p q r = elim (Bool-cases (ltb 0 start_time)) [
  | inl e ↦ rw e (pid_with_start pid p q start_time r)
  | inr e ↦ let z : 0 ≡ start_time = ground arith in rw e (pid_alone pid p q ∙ ap (parsed pid) z)
]
