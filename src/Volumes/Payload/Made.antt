-- ===== src/Volumes/Payload/Made.antt =====
-- What is in the files of a config map or a secret that MakePayload of the two drivers makes.
use hpktainer.Base.{
  ℤ, Bool, false, Option, none, some, List, [], ◌∷◌, Bytes, ◌≡◌, ◌≢◌, inl, inr, refl, sym, ap, ◌∙◌,
  arith, All, if◌then◌else◌, lookup, insert, lookup-insert, beq, Bool-cases, Option-cases,
}
use hpktainer.Volumes.{ok}
use hpktainer.Volumes.Payload.{
  FileProjection, Files, KeyToPath, ConfigMap, Secret, add_all, mode_or, project,
  config_map_content, secret_content, config_map_files, make_config_map_payload, secret_files,
  make_secret_payload,
}

-- A content with its mode.
abbrev pub with_mode : ℤ → Option Bytes → Option FileProjection
with_mode mode none = none
with_mode mode (some content) = some (content, mode)

abbrev pub first_of : {A : Type 0} → Option A → Option A → Option A
first_of none b = b
first_of (some a) b = some a

-- The file at a path: that of the last mapping to the path with a key that is there.
abbrev pub last_file : (Bytes → Option Bytes) → ℤ → Bytes → List KeyToPath → Option FileProjection
last_file find default_mode path [] = none
last_file find default_mode path (m ∷ mappings) =
    first_of (last_file find default_mode path mappings)
      (if beq m.path path then with_mode (mode_or m.mode default_mode) (find m.key) else none)

lookup-add_all :
    (mode : ℤ) (m : List (Bytes × Bytes)) (files : Files) (path : Bytes)
    → lookup path (add_all mode m files)
      ≡ first_of (with_mode mode (lookup path m)) (lookup path files)
unfolding add_all lookup
lookup-add_all mode [] files path = refl
lookup-add_all mode ((name, content) ∷ others) files path = ground (
  arith,
  lookup-insert name path (content, mode) (add_all mode others files),
  lookup-add_all mode others files path,
)

pub first_of_assoc :
    {A : Type 0} (a b c : Option A) → first_of (first_of a b) c ≡ first_of a (first_of b c)
first_of_assoc none b c = refl
first_of_assoc (some a) b c = refl

project-last :
    (find : Bytes → Option Bytes) (optional : Bool) (mode : ℤ) (mappings : List KeyToPath)
    (files result : Files) (path : Bytes)
    → project find optional mode mappings files ≡ ok result
    → lookup path result ≡ first_of (last_file find mode path mappings) (lookup path files)
unfolding project
project-last find optional mode [] files result path e = ground arith
project-last find optional mode (m ∷ mappings) files result path e =
    elim (Option-cases (find m.key)) [
      | inl missing ↦ elim (Bool-cases optional) [
        | inl o ↦
            let next : project find optional mode mappings files ≡ ok result = ground arith in
            ground (arith, project-last find optional mode mappings files result path next)
        | inr o ↦ absurd (ground arith)
      ]
      | inr (content, found) ↦
          let file : FileProjection = (content, mode_or m.mode mode) in
          let next : project find optional mode mappings (insert m.path file files) ≡ ok result =
            ground arith in
          project-last find optional mode mappings (insert m.path file files) result path next
          ∙ ground (
            arith,
            lookup-insert m.path path file files,
            first_of_assoc (last_file find mode path mappings)
                (if beq m.path path then with_mode (mode_or m.mode mode) (find m.key) else none)
                (lookup path files),
          )
    ]

-- Unless the object is optional, every key that is mapped is there.
project-Required :
    (find : Bytes → Option Bytes) (mode : ℤ) (mappings : List KeyToPath) (files result : Files)
    → project find false mode mappings files ≡ ok result
    → All (λ m. find m.key ≢ none) mappings
unfolding project
project-Required find mode [] files result e = tt
project-Required find mode (m ∷ mappings) files result e = elim (Option-cases (find m.key)) [
  | inl missing ↦ absurd (ground arith)
  | inr (content, found) ↦
      let next : project find false mode mappings
            (insert m.path (content, mode_or m.mode mode) files)
          ≡ ok result =
        ground arith in
      (
        ground arith,
        project-Required find mode mappings (insert m.path (content, mode_or m.mode mode) files)
            result next,
      )
]

-- The file that a path has in the payload of a config map: with no mappings, binary data comes before
-- text; with mappings, text comes before binary data.
abbrev pub config_map_file : List KeyToPath → ConfigMap → ℤ → Bytes → Option FileProjection
config_map_file [] c mode path =
    with_mode mode (first_of (lookup path c.binary_data) (lookup path c.text_data))
config_map_file (m ∷ mappings) c mode path =
    last_file (config_map_content c) mode path (m ∷ mappings)

abbrev pub secret_file : List KeyToPath → Secret → ℤ → Bytes → Option FileProjection
secret_file [] s mode path = with_mode mode (lookup path s.secret_data)
secret_file (m ∷ mappings) s mode path = last_file (secret_content s) mode path (m ∷ mappings)

-- What a payload that is made from an object holds.
pub record Made (items : List KeyToPath) (optional : Bool) (content : Bytes → Option Bytes)
    (expected : Bytes → Option FileProjection) (files : Files) : Type 0 where
  pub file : (path : Bytes) → lookup path files ≡ expected path
  pub required : optional ≡ false → All (λ m. content m.key ≢ none) items

with_mode-first_of :
    (mode : ℤ) (a b : Option Bytes)
    → first_of (with_mode mode a) (with_mode mode b) ≡ with_mode mode (first_of a b)
with_mode-first_of mode none b = refl
with_mode-first_of mode (some content) b = refl

pub first_of-none : {A : Type 0} (a : Option A) → first_of a none ≡ a
first_of-none none = refl
first_of-none (some a) = refl

project-Made :
    (items : List KeyToPath) (optional : Bool) (content : Bytes → Option Bytes) (mode : ℤ)
    (files : Files)
    → project content optional mode items [] ≡ ok files
    → Made items optional content (λ path. last_file content mode path items) files
unfolding lookup
project-Made items optional content mode files e = record {
  file = λ path.
      project-last content optional mode items [] files path e
      ∙ first_of-none (last_file content mode path items);
  required = λ o.
      project-Required content mode items [] files
        (ap (λ b. project content b mode items []) (sym o) ∙ e);
}

pub make_config_map_payload-Made :
    (items : List KeyToPath) (c : ConfigMap) (mode : ℤ) (optional : Bool) (files : Files)
    → make_config_map_payload items c (some mode) optional ≡ ok files
    → Made items optional (config_map_content c) (config_map_file items c mode) files
unfolding make_config_map_payload config_map_files lookup
make_config_map_payload-Made [] c mode optional files e = record {
  file = λ path. ground (
    arith,
    lookup-add_all mode c.binary_data (add_all mode c.text_data []) path,
    lookup-add_all mode c.text_data [] path,
    first_of-none (with_mode mode (lookup path c.text_data)),
    with_mode-first_of mode (lookup path c.binary_data) (lookup path c.text_data),
  );
  required = λ o. tt;
}
make_config_map_payload-Made (m ∷ items) c mode optional files e =
    project-Made (m ∷ items) optional (config_map_content c) mode files e

pub make_secret_payload-Made :
    (items : List KeyToPath) (s : Secret) (mode : ℤ) (optional : Bool) (files : Files)
    → make_secret_payload items s (some mode) optional ≡ ok files
    → Made items optional (secret_content s) (secret_file items s mode) files
unfolding make_secret_payload secret_files lookup
make_secret_payload-Made [] s mode optional files e = record {
  file = λ path. ground (
    arith,
    lookup-add_all mode s.secret_data [] path,
    first_of-none (with_mode mode (lookup path s.secret_data)),
  );
  required = λ o. tt;
}
make_secret_payload-Made (m ∷ items) s mode optional files e =
    project-Made (m ∷ items) optional (secret_content s) mode files e
