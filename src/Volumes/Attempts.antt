-- ===== src/Volumes/Attempts.antt =====
-- The result of retry.OnError, for internal/compute/podhandler/volumes.go and the drivers.
use hpktainer.Base.{ℕ, Bool, ◌≡◌, ◌<◌, ap, ◌∙◌, arith, inl, inr, ◌⊎◌}
use native.Mathlib.Decide.{dec_lt}
use hpktainer.Volumes.{VolumeError, Result, ok, err, Retriable, Retried}

order : (m n : ℕ) → (m < n) ⊎ ((m ≡ n) ⊎ (n < m))
order m n = elim (dec_lt m n) [
  | yes before ↦ inl before
  | no p ↦ elim (dec_lt n m) [ yes after ↦ inr (inr after) | no q ↦ inr (inl (omega arith)) ]
]

module _ {A : Type 0} {steps : ℕ} {test : VolumeError → Bool} {run : ℕ → Result A}
    {result : Result A} where
  -- The first attempt that is not worth another one gives the result.
  pub Retried-first :
      (n : ℕ)
      → Retried steps test run result
      → n < steps
      → ((j : ℕ) → j < n → Retriable test (run j))
      → ¬ Retriable test (run n)
      → result ≡ run n
  Retried-first n r b earlier stop = elim (order r.last n) [
    | inl before ↦ elim (r.stopped) [
      | inl stopped ↦ absurd (stopped (earlier r.last before))
      | inr last ↦ absurd (omega arith)
    ]
    | inr (inl same) ↦ r.last_result ∙ ap run same
    | inr (inr after) ↦ absurd (stop (r.before n after))
  ]

pub ok-stops :
    {A : Type 0} (test : VolumeError → Bool) (r : Result A) (a : A) → r ≡ ok a → ¬ Retriable test r
ok-stops test (ok b) a e h = h
ok-stops test (err x) a e h = absurd (ground arith)
