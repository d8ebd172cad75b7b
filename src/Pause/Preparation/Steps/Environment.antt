-- ===== src/Pause/Preparation/Steps/Environment.antt =====
-- The environment after prepareContainers of cmd/hpk-pause/main.go, name by name.
use hpktainer.Base.{
  Bool, false, Option, none, some, List, [], ◌∷◌, Bytes, codes, ◌≡◌, ◌≢◌, refl, ap, ◌∙◌, arith, All,
  if◌then◌else◌, lookup, beq, beq_iff, any,
}
use hpktainer.Pause.Preparation.{Address, Host, DnsPod, Variables}
use hpktainer.Pause.Preparation.Steps.{
  prepare_containers, set_value, runtime_settings, cleared_names, lookup-prepare_containers,
}

-- The variables for the directory of temporary files, for that of the cache, and the variables that a
-- container must not take over from the process that started the pod.
abbrev pub tmp_names : List Bytes
tmp_names = codes "APPTAINER_TMPDIR" ∷ codes "SINGULARITY_TMPDIR" ∷ codes "TMPDIR" ∷ []

abbrev pub cache_names : List Bytes
cache_names = codes "APPTAINER_CACHEDIR" ∷ codes "SINGULARITY_CACHEDIR" ∷ []

abbrev pub dropped_names : List Bytes
dropped_names =
    codes "LD_LIBRARY_PATH"
    ∷ codes "SINGULARITY_COMMAND"
    ∷ codes "SINGULARITY_CONTAINER"
    ∷ codes "SINGULARITY_ENVIRONMENT"
    ∷ codes "SINGULARITY_NAME"
    ∷ codes "SINGULARITY_BIND"
    ∷ codes "SINGULARITY_BINDPATH"
    ∷ codes "SINGULARITY_MOUNT"
    ∷ codes "APPTAINER_APPNAME"
    ∷ codes "APPTAINER_COMMAND"
    ∷ codes "APPTAINER_CONTAINER"
    ∷ codes "APPTAINER_ENVIRONMENT"
    ∷ codes "APPTAINER_NAME"
    ∷ codes "APPTAINER_BIND"
    ∷ codes "APPTAINER_BINDPATH"
    ∷ codes "APPTAINER_MOUNT"
    ∷ []

abbrev pub Other : Bytes → List Bytes → Type 0
Other name = All (λ n. n ≢ name)

-- The environment that is made of an old one.
pub record Prepared (old new : Variables) : Type 0 where
  pub tmp : All (λ n. lookup n new ≡ some (codes "/tmp/.hpk-apptainer/tmp")) tmp_names
  pub cache : All (λ n. lookup n new ≡ some (codes "/tmp/.hpk-apptainer/cache")) cache_names
  pub dropped : All (λ n. lookup n new ≡ none) dropped_names
  pub kept :
      (name : Bytes)
      → Other name tmp_names
      → Other name cache_names
      → Other name dropped_names
      → lookup name new ≡ lookup name old

Other-any :
    (name : Bytes) (names : List Bytes) → Other name names → any (λ n. beq n name) names ≡ false
Other-any name [] o = refl
Other-any name (n ∷ names) o = ground (arith, beq_iff n name, Other-any name names)

Other-set_value :
    (name : Bytes) (settings : List (Bytes × Bytes)) (old : Option Bytes)
    → All (λ s. s.0 ≢ name) settings
    → set_value name settings old ≡ old
Other-set_value name [] old o = refl
Other-set_value name ((n, v) ∷ settings) old o =
    ground (arith, beq_iff n name, Other-set_value name settings old)

module _ (h : Host) (env : Variables) (pod : DnsPod) (dir : Bytes)
    (addresses : Option (List Address))
    (succeeds : (prepare_containers h env pod dir addresses).0.1 ≡ none) where
  -- The value that the settings and the clearing leave.
  abbrev left : Bytes → Option Bytes
  left j =
      set_value j runtime_settings (if any (λ n. beq n j) cleared_names then none else lookup j env)

  set :
      (value : Option Bytes) (names : List Bytes)
      → All (λ n. left n ≡ value) names
      → All (λ n. lookup n (prepare_containers h env pod dir addresses).1 ≡ value) names
  set value [] a = tt
  set value (n ∷ names) a =
      (lookup-prepare_containers h env pod dir addresses n succeeds ∙ a.0, set value names a.1)

  -- If prepareContainers gives no error, then in the environment that it leaves the three variables for
  -- temporary files are /tmp/.hpk-apptainer/tmp, the two for the cache are /tmp/.hpk-apptainer/cache, the
  -- sixteen variables through which the outer container could reach into an inner one are unset, and
  -- every other variable has its old value.
  pub prepare_containers-Prepared : Prepared env (prepare_containers h env pod dir addresses).1
  unfolding beq
  prepare_containers-Prepared = record {
    tmp = set (some (codes "/tmp/.hpk-apptainer/tmp")) tmp_names (refl, (refl, (refl, tt)));
    cache = set (some (codes "/tmp/.hpk-apptainer/cache")) cache_names (refl, (refl, tt));
    dropped = set none dropped_names (
      refl,
      (
        refl,
        (
          refl,
          (
            refl,
            (
              refl,
              (
                refl,
                (refl, (refl, (refl, (refl, (refl, (refl, (refl, (refl, (refl, (refl, tt)))))))))),
              ),
            ),
          ),
        ),
      ),
    );
    kept = λ j a b c.
        lookup-prepare_containers h env pod dir addresses j succeeds
        ∙ Other-set_value j runtime_settings _ (a.0, (a.1.0, (a.1.1.0, (b.0, (b.1.0, tt)))))
        ∙ ap (λ (x : Bool). if x then none else lookup j env) (Other-any j dropped_names c);
  }
