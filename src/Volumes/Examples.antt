-- ===== src/Volumes/Examples.antt =====
-- A function that does what retry.OnError is documented to do, and instances for the volumes.
mod Instances
use hpktainer.Base.{
  ℕ, zero, suc, ◌+◌, ◌≤◌, ◌<◌, Bool, true, false, ◌≡◌, ◌⊎◌, inl, inr, refl, arith, if◌then◌else◌,
  Bool-cases,
}
use native.Mathlib.Decide.{dec_lt}
use hpktainer.Volumes.{VolumeError, Result, ok, err, Retry, Retriable, Retries}

again : {A : Type 0} → (VolumeError → Bool) → Result A → Bool
again test (ok a) = false
again test (err e) = test e

attempts : {A : Type 0} → (VolumeError → Bool) → (ℕ → Result A) → ℕ → ℕ → Result A
unfolding again
attempts test run zero n = run n
attempts test run (suc k) n =
    let rest = attempts test run k (suc n) in if again test (run n) then rest else run n

again-Retriable :
    {A : Type 0} (test : VolumeError → Bool) (r : Result A) → again test r ≡ true → Retriable test r
unfolding again
again-Retriable test (ok a) e = absurd (ground arith)
again-Retriable test (err x) e = e

again-stops :
    {A : Type 0} (test : VolumeError → Bool) (r : Result A)
    → again test r ≡ false
    → ¬ Retriable test r
unfolding again
again-stops test (ok a) e h = h
again-stops test (err x) e h = absurd (ground arith)

record From {A : Type 0} (first steps : ℕ) (test : VolumeError → Bool) (run : ℕ → Result A)
    (result : Result A) : Type 0 where
  last : ℕ
  last_from : first ≤ last
  last_bound : last < first + steps
  last_result : result ≡ run last
  before : (j : ℕ) → first ≤ j → j < last → Retriable test (run j)
  stopped : (¬ Retriable test (run last)) ⊎ (suc last ≡ first + steps)

attempts-From :
    {A : Type 0} (test : VolumeError → Bool) (run : ℕ → Result A) (k n : ℕ)
    → From n (suc k) test run (attempts test run k n)
unfolding attempts
attempts-From test run zero n = record {
  last = n;
  last_from = omega arith;
  last_bound = omega arith;
  last_result = refl;
  before = λ j a b. absurd (omega arith);
  stopped = inr (omega arith);
}
attempts-From test run (suc k) n = elim (Bool-cases (again test (run n))) [
  | inl e ↦
      let r = attempts-From test run k (suc n) in
      rw e (record {
        last = r.last;
        last_from = omega (arith, r.last_from);
        last_bound = omega (arith, r.last_bound);
        last_result = r.last_result;
        before = λ j a b. elim (dec_lt n j) [
          | yes c ↦ r.before j (omega arith) b
          | no c ↦ let same : j ≡ n = omega arith in rw same (again-Retriable test (run n) e)
        ];
        stopped = elim (r.stopped) [ inl c ↦ inl c | inr c ↦ inr (omega arith) ];
      })
  | inr e ↦ rw e (record {
    last = n;
    last_from = omega arith;
    last_bound = omega arith;
    last_result = refl;
    before = λ j a b. absurd (omega arith);
    stopped = inl (again-stops test (run n) e);
  })
]

unfoldable pub on_error : {A : Type 0} → ℕ → Retry A
unfolding attempts
on_error steps test run = attempts test run steps 0

pub on_error-Retries : {A : Type 0} (steps : ℕ) → Retries {A = A} (suc steps) (on_error steps)
unfolding on_error
on_error-Retries steps test run =
    let r = attempts-From test run steps 0 in
    record {
      last = r.last;
      last_bound = omega (arith, r.last_bound);
      last_result = r.last_result;
      before = λ j b. r.before j (omega arith) b;
      stopped = elim (r.stopped) [ inl c ↦ inl c | inr c ↦ inr (omega arith) ];
    }
