-- ===== src/Pause/Tracker.antt =====
-- containerTracker of cmd/hpk-pause/main.go. A command is the process id that it has once it is
-- started; the map from process ids to commands is the list of its keys, in the order in which a
-- range visits them.
use hpktainer.Base.{
  ℕ, ◌≡◌, ◌<◌, refl, Bool, false, Option, none, some, List, [], ◌∷◌, if◌then◌else◌, ◌==◌, ltb,
  arith, any, Bool-cases, inl, inr,
}
use hpktainer.Cancel.{Signal}

unfoldable pub has_process : ℕ → List ℕ → Bool
has_process pid processes = any (λ p. p == pid) processes

-- Add; a command without a process is passed over.
unfoldable pub add : Option ℕ → List ℕ → List ℕ
unfolding has_process
add none processes = processes
add (some pid) processes = if has_process pid processes then processes else pid ∷ processes

delete_key : ℕ → List ℕ → List ℕ
delete_key pid [] = []
delete_key pid (p ∷ processes) =
    let rest = delete_key pid processes in if p == pid then rest else p ∷ rest

-- Remove.
unfoldable pub remove : Option ℕ → List ℕ → List ℕ
unfolding delete_key
remove none processes = processes
remove (some pid) processes = delete_key pid processes

-- A signal to a process group or to a process.
pub data Sent : Type 0 where
  group : ℕ → Signal → Sent
  process : ℕ → Signal → Sent

-- What is done for one process; `pgid` is the answer of Getpgid.
pub signal_one : Option ℕ → Signal → ℕ → Sent
signal_one none sig pid = process pid sig
signal_one (some pgid) sig pid = if ltb 1 pgid then group pgid sig else process pid sig

-- SignalAll.
unfoldable pub signal_all : (ℕ → Option ℕ) → Signal → List ℕ → List Sent
unfolding signal_one
signal_all getpgid sig [] = []
signal_all getpgid sig (pid ∷ processes) =
    signal_one (getpgid pid) sig pid ∷ signal_all getpgid sig processes

-- The signal reaches the process, itself or through its group, and no group is that of all processes
-- or of init.
abbrev pub Reaches : (ℕ → Option ℕ) → Signal → ℕ → Sent → Type 0
Reaches getpgid sig pid (process p s) = (p ≡ pid) × (s ≡ sig)
Reaches getpgid sig pid (group g s) = (getpgid pid ≡ some g) × ((1 < g) × (s ≡ sig))

abbrev pub Pairwise : {A B : Type 0} → (A → B → Type 0) → List A → List B → Type 0
Pairwise R [] [] = Unit
Pairwise R (x ∷ xs) (y ∷ ys) = R x y × Pairwise R xs ys
Pairwise R _ _ = ⊥

module _ (getpgid : ℕ → Option ℕ) (sig : Signal) where
  signal_one-Reaches :
      (pid : ℕ) (answer : Option ℕ)
      → getpgid pid ≡ answer
      → Reaches getpgid sig pid (signal_one answer sig pid)
  unfolding signal_one
  signal_one-Reaches pid none h = (refl, refl)
  signal_one-Reaches pid (some pgid) h = elim (Bool-cases (ltb 1 pgid)) [
    | inl e ↦ rw e (h, (ground arith, refl))
    | inr e ↦ rw e (refl, refl)
  ]

  -- SignalAll sends exactly one signal for each tracked process, the given one, to the process or to
  -- its own process group, which is never group 0 or 1.
  pub signal_all-Reaches :
      (processes : List ℕ)
      → Pairwise (Reaches getpgid sig) processes (signal_all getpgid sig processes)
  unfolding signal_all
  signal_all-Reaches [] = tt
  signal_all-Reaches (pid ∷ processes) =
      (signal_one-Reaches pid (getpgid pid) refl, signal_all-Reaches processes)

has_process-delete_key :
    (pid q : ℕ) (ps : List ℕ)
    → has_process q (delete_key pid ps) ≡ (if q == pid then false else has_process q ps)
unfolding has_process delete_key
has_process-delete_key pid q [] = ground arith
has_process-delete_key pid q (p ∷ ps) = ground (arith, has_process-delete_key pid q ps)

-- Remove takes back what Add did: a process is tracked after both exactly if it was tracked before
-- and is another one.
pub has_process-remove :
    (pid q : ℕ) (ps : List ℕ)
    → has_process q (remove (some pid) (add (some pid) ps))
      ≡ (if q == pid then false else has_process q ps)
unfolding remove add
has_process-remove pid q ps = elim (Bool-cases (has_process pid ps)) [
  | inl e ↦ rw e (has_process-delete_key pid q ps)
  | inr e ↦ unfold has_process in ground (arith, e, has_process-delete_key pid q (pid ∷ ps))
]
