-- ===== src/Pause/EnvFile.antt =====
-- parseEnvVars of cmd/hpk-pause/main.go: the output of the environment script, back to the variables.
use hpktainer.Base.{
  ℕ, Option, none, some, List, [], ◌∷◌, ◌++◌, Bytes, ◌≡◌, ◌≢◌, refl, ap, sym, ◌∙◌, arith, All,
  All-append, Lacks, split, split-append, append_assoc,
}
use hpktainer.Expansion.Callers.{EnvVar}
use hpktainer.Image.{split_once}

-- `len(parts) == 2`.
env_of_parts : Bytes × Option Bytes → List EnvVar → List EnvVar
env_of_parts (name, none) envs = envs
env_of_parts (name, some value) envs = record { name = name; value = value } ∷ envs

-- One entry, in front of the variables of the later ones.
add_entry : Bytes → List EnvVar → List EnvVar
unfolding env_of_parts
add_entry [] envs = envs
add_entry (c ∷ entry) envs = env_of_parts (split_once b'=' (c ∷ entry)) envs

parse_entries : List Bytes → List EnvVar
unfolding add_entry
parse_entries [] = []
parse_entries (entry ∷ entries) = add_entry entry (parse_entries entries)

unfoldable pub parse_env_vars : Bytes → List EnvVar
unfolding parse_entries
parse_env_vars output = parse_entries (split output 0)

-- What printf '%s=%s\0' prints for each variable, in the environment script.
abbrev pub print_env_vars : List EnvVar → Bytes
print_env_vars [] = []
print_env_vars (e ∷ es) = e.name ++ b'=' ∷ (e.value ++ 0 ∷ print_env_vars es)

-- A name without `=`, and no zero byte.
abbrev pub Printable : List EnvVar → Type 0
Printable = All (λ e. Lacks b'=' e.name × (Lacks 0 e.name × Lacks 0 e.value))

split_once-append :
    (sep : ℕ) (s t : Bytes) → Lacks sep s → split_once sep (s ++ sep ∷ t) ≡ (s, some t)
unfolding split_once
split_once-append sep [] t l = ground arith
split_once-append sep (c ∷ s) t l = ground (arith, split_once-append sep s t l.1)

add_entry-printed :
    (name value : Bytes) (envs : List EnvVar)
    → Lacks b'=' name
    → add_entry (name ++ b'=' ∷ value) envs ≡ record { name = name; value = value } ∷ envs
unfolding add_entry
add_entry-printed [] value envs l =
    ap (λ (p : Bytes × Option Bytes). env_of_parts p envs) (split_once-append b'=' [] value l)
add_entry-printed (c ∷ name) value envs l =
    ap (λ (p : Bytes × Option Bytes). env_of_parts p envs)
      (split_once-append b'=' (c ∷ name) value l)

-- The variables are read back as they were printed, in order, also those with an empty name or value
-- or with an `=` in the value, if no name contains `=` and none of the texts a zero byte.
pub parse-print :
    (envs : List EnvVar) → Printable envs → parse_env_vars (print_env_vars envs) ≡ envs
unfolding parse_env_vars parse_entries
parse-print [] h = unfold split add_entry in refl
parse-print (e ∷ es) h =
    let entry = e.name ++ b'=' ∷ e.value in
    let lacks : Lacks 0 entry =
      All-append (λ c. c ≢ 0) e.name (b'=' ∷ e.value) h.0.1.0 (omega arith, h.0.1.1) in
    ap (λ (t : Bytes). parse_entries (split t 0))
      (sym (append_assoc e.name (b'=' ∷ e.value) (0 ∷ print_env_vars es)))
    ∙ ap parse_entries (split-append entry (print_env_vars es) 0 lacks)
    ∙ add_entry-printed e.name e.value (parse_entries (split (print_env_vars es) 0)) h.0.0
    ∙ ap (λ (l : List EnvVar). e ∷ l) (parse-print es h.1)
