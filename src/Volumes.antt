-- ===== src/Volumes.antt =====
-- The volumes of a pod: internal/compute/podhandler/volumes.go, and the drivers under
-- internal/compute/volume. The answers of the API server and of the file system are a record; an
-- attempt of a request is numbered. retry.OnError of k8s.io/client-go is an argument.
pub mod Attempts
pub mod Claims
pub mod Payload
pub mod Downward
pub mod HostPath
pub mod Projections
pub mod Mounting
pub mod Examples
use hpktainer.Base.{
  ℕ, ℤ, Bool, true, Option, none, some, List, [], ◌∷◌, ◌++◌, Bytes, ◌≡◌, ◌<◌, suc, ◌⊎◌,
}

-- The errors, with what the code tells apart. A request of the API server fails with `not_found`
-- (k8errors.IsNotFound) or with another error.
pub data VolumeError : Type 0 where
  not_found request_failed unbound_claim unsupported_claim_mode unsupported_volume : VolumeError
  no_default_mode missing_key no_field not_made not_linked not_inspected : VolumeError
  no_path back_steps wrong_type invalid_type not_mounted not_written : VolumeError

pub data Result {ℓ} (A : Type ℓ) : Type ℓ where
  ok : A → Result A
  err : VolumeError → Result A

pub data Effect : Type 0 where
  make_dir : Bytes → Effect
  make_file : Bytes → Effect
  symlink : Bytes → Bytes → Effect
  write_file : Bytes → Bytes → ℤ → Effect
  write_payload : Bytes → List (Bytes × (Bytes × ℤ)) → Effect

-- The effects of a step, and its error; where there is one, the last effect may be the call that failed.
abbrev pub Done : Type 0
Done = List Effect × Option VolumeError

-- A step, unless the one before has failed.
infixr 4 ◌then◌
abbrev pub ◌then◌ : Done → Done → Done
(effects, none) then (later, error) = (effects ++ later, error)
(effects, some e) then rest = (effects, some e)

-- A call of the file system: os.IsExist holds of the error `present`.
pub data Answer : Type 0 where
  performed present refused : Answer

abbrev pub attempt : Answer → Effect → VolumeError → Done
attempt performed effect e = (effect ∷ [], none)
attempt _ effect e = (effect ∷ [], some e)

-- `err != nil && !os.IsExist(err)`: nothing is done where something is there already, and that is no
-- error.
abbrev pub attempt_new : Answer → Effect → VolumeError → Done
attempt_new refused effect e = (effect ∷ [], some e)
attempt_new present effect e = ([], none)
attempt_new performed effect e = (effect ∷ [], none)

-- retry.OnError with a backoff of some number of steps: the test of the errors that are worth another
-- attempt, and the outcome of each attempt.
abbrev pub Retry : Type 0 → Type 0
Retry A = (VolumeError → Bool) → (ℕ → Result A) → Result A

-- The outcome is an error that is worth another attempt.
abbrev pub Retriable : {A : Type 0} → (VolumeError → Bool) → Result A → Type 0
Retriable test (ok a) = ⊥
Retriable test (err e) = test e ≡ true

-- What is documented of retry.OnError: its result is that of one of its attempts, of which there are at
-- most as many as steps; the attempts before ended with errors that are worth another attempt, and this
-- one did not, or was the last.
pub record Retried {A : Type 0} (steps : ℕ) (test : VolumeError → Bool) (run : ℕ → Result A)
    (result : Result A) : Type 0 where
  pub last : ℕ
  pub last_bound : last < steps
  pub last_result : result ≡ run last
  pub before : (j : ℕ) → j < last → Retriable test (run j)
  pub stopped : (¬ Retriable test (run last)) ⊎ (suc last ≡ steps)

abbrev pub Retries : {A : Type 0} → ℕ → Retry A → Type 0
Retries {A} steps retry =
    (test : VolumeError → Bool) (run : ℕ → Result A) → Retried steps test run (retry test run)
