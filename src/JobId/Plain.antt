-- ===== src/JobId/Plain.antt =====
-- Process ids without a type, as podhandler.go passes them on, read by ParseProcessJobID of
-- internal/compute/runtime/idtype.go.
use hpktainer.Base.{
  ℕ, ◌≤◌, ◌<◌, ◌≡◌, ◌≢◌, ◌∙◌, refl, ap, [], ◌∷◌, ◌++◌, Bytes, arith, List, Solid,
  append-cons-ne-nil, trim_space-Solid, split, split-Lacks, split-append, All-append, format_uint,
  Digits, format_uint-Digits, format_uint-ne-nil, parse_uint-format_uint, max_i64, max_u64,
  cut_prefix,
}
use hpktainer.JobId.{parsed, parse_parts, strip_type, parse_value, parse_process_job_id}
use hpktainer.JobId.RoundTrip.{read_pid, Digits-Solid, Digits-Lacks, parse_value-parts}

strip_type-Digits : (s t : Bytes) → s ≢ [] → Digits s → strip_type (s ++ t) ≡ s ++ t
unfolding strip_type cut_prefix
strip_type-Digits [] t n d = absurd (n refl)
strip_type-Digits (c ∷ s) t n d = ground (arith, d.0)

strip_type-alone : (s : Bytes) → s ≢ [] → Digits s → strip_type s ≡ s
unfolding strip_type cut_prefix
strip_type-alone [] n d = absurd (n refl)
strip_type-alone (c ∷ s) n d = ground (arith, d.0)

parse_untyped :
    (s : Bytes)
    → strip_type s ≡ s
    → Solid s
    → s ≢ []
    → parse_process_job_id s ≡ parse_parts (split s b':')
unfolding parse_process_job_id
parse_untyped s e h m =
    ap (λ (x : Bytes). parse_value (strip_type x)) (trim_space-Solid s h)
    ∙ ap parse_value e
    ∙ parse_value-parts s m

module _ (pid : ℕ) (p : 0 < pid) (q : pid ≤ max_i64) where
  pub parse-plain_pid : parse_process_job_id (format_uint pid) ≡ parsed pid 0
  unfolding parse_parts
  parse-plain_pid =
      let d = format_uint-Digits pid in
      let n = format_uint-ne-nil pid in
      parse_untyped (format_uint pid) (strip_type-alone _ n d) (Digits-Solid _ d) n
      ∙ ap parse_parts (split-Lacks (format_uint pid) b':' (Digits-Lacks _ d))
      ∙ ground (arith, read_pid pid p q)

  pub parse-plain_pid_start :
      (start_time : ℕ)
      → start_time ≤ max_u64
      → parse_process_job_id (format_uint pid ++ b':' ∷ format_uint start_time)
        ≡ parsed pid start_time
  unfolding parse_parts
  parse-plain_pid_start st r =
      let d = format_uint-Digits pid in
      let d' = format_uint-Digits st in
      parse_untyped (format_uint pid ++ b':' ∷ format_uint st)
        (strip_type-Digits (format_uint pid) (b':' ∷ format_uint st) (format_uint-ne-nil pid) d)
        (All-append _ (format_uint pid) (b':' ∷ format_uint st) (Digits-Solid _ d)
          (refl, Digits-Solid _ d'))
        (append-cons-ne-nil (format_uint pid) b':' (format_uint st))
      ∙ ap parse_parts (split-append (format_uint pid) (format_uint st) b':' (Digits-Lacks _ d))
      ∙ ap (λ (x : List Bytes). parse_parts (format_uint pid ∷ x))
          (split-Lacks (format_uint st) b':' (Digits-Lacks _ d'))
      ∙ ground (arith, read_pid pid p q, parse_uint-format_uint st r)
