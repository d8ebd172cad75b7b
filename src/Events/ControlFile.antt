-- ===== src/Events/ControlFile.antt =====
-- ParseControlFilePath of internal/compute/endpoint/paths.go reads back the paths that it is meant for.
use hpktainer.Base.{
  ℕ, suc, ◌+◌, ◌≤◌, ◌<◌, ◌≡◌, ◌≢◌, refl, ap, true, false, Option, none, some, [], ◌∷◌, ◌++◌, Bytes,
  codes, if◌then◌else◌, ◌==◌, any, cut_prefix, trim_prefix, is_abs, arith, All, Option-cases, inl,
  inr, cut_prefix-append,
}
use hpktainer.Events.{
  is_blank, Match, match_file, push_pod, push_namespace, first_match, match_pod_rest, match_pod,
  match_namespace_rest, match_path, parse_control_file_path,
}

slashes : Bytes → ℕ
slashes [] = 0
slashes (c ∷ s) = let rest = slashes s in if c == b'/' then suc rest else rest

cut_prefix-slashes :
    (s p rest : Bytes) → cut_prefix s p ≡ some rest → slashes s ≡ slashes p + slashes rest
unfolding cut_prefix slashes
cut_prefix-slashes s [] rest h =
    ground
      (arith, ap (λ (x : Option Bytes). elim x as (λ o. ℕ) [ none ↦ 0 | some t ↦ slashes t ]) h)
cut_prefix-slashes [] (p ∷ ps) rest h = ground arith
cut_prefix-slashes (c ∷ s) (p ∷ ps) rest h = ground (arith, cut_prefix-slashes s ps rest)

two_slashes : slashes (codes "/controlfiles/") ≡ 2
unfolding slashes
two_slashes = refl

match_file-slashes : (s : Bytes) (m : Match) → match_file s ≡ some m → 2 ≤ slashes s
unfolding match_file
match_file-slashes s m h = elim (Option-cases (cut_prefix s (codes "/controlfiles/"))) [
  | inl e ↦ ground arith
  | inr (file, e) ↦
      let two : slashes (codes "/controlfiles/") ≡ 2 = two_slashes in
      omega (arith, cut_prefix-slashes s (codes "/controlfiles/") file e, two)
]

match_file-none : (s : Bytes) → slashes s < 2 → match_file s ≡ none
match_file-none s h = elim (Option-cases (match_file s)) [
  | inl e ↦ e
  | inr (m, e) ↦ absurd (omega (arith, match_file-slashes s m e))
]

-- A match needs three slashes, and behind the pod two.
match_pod_rest-none : (s : Bytes) → slashes s < 2 → match_pod_rest s ≡ none
unfolding match_pod_rest first_match push_pod slashes
match_pod_rest-none [] h = match_file-none [] (omega arith)
match_pod_rest-none (c ∷ s) h = ground (arith, match_file-none (c ∷ s) h, match_pod_rest-none s)

match_pod-none : (s : Bytes) → slashes s < 3 → match_pod s ≡ none
unfolding match_pod push_pod slashes
match_pod-none [] h = refl
match_pod-none (d ∷ []) h = refl
match_pod-none (d ∷ c ∷ s) h = ground (arith, match_pod_rest-none s)

match_namespace_rest-none : (s : Bytes) → slashes s < 3 → match_namespace_rest s ≡ none
unfolding match_namespace_rest first_match push_namespace slashes
match_namespace_rest-none [] h = match_pod-none [] h
match_namespace_rest-none (c ∷ s) h =
    ground (arith, match_pod-none (c ∷ s) h, match_namespace_rest-none s)

match_pod_rest-file : (s : Bytes) (m : Match) → match_file s ≡ some m → match_pod_rest s ≡ some m
unfolding match_pod_rest first_match
match_pod_rest-file [] m h = h
match_pod_rest-file (c ∷ s) m h = ground (arith, h)

match_file-other : (c : ℕ) (s : Bytes) → c ≢ b'/' → match_file (c ∷ s) ≡ none
unfolding match_file cut_prefix
match_file-other c s h = ground (arith, h)

slashes-append : (s t : Bytes) → slashes (s ++ t) ≡ slashes s + slashes t
unfolding slashes
slashes-append [] t = omega arith
slashes-append (c ∷ s) t = ground (arith, slashes-append s t)

-- A name of a namespace or pod: it is not empty, and no character is blank or a slash.
abbrev PlainChar : ℕ → Type 0
PlainChar c = (is_blank c ≡ false) × (c ≢ b'/')

abbrev pub PlainName : Bytes → Type 0
PlainName [] = ⊥
PlainName (c ∷ s) = PlainChar c × All PlainChar s

-- A file of the directory of control files.
abbrev pub PlainFile : Bytes → Type 0
PlainFile file = All (λ c. (c ≢ 10) × (c ≢ b'/')) file

module _ (file : Bytes) (plain : PlainFile file) where
  tail : Bytes
  tail = codes "/controlfiles/" ++ file

  slashes-file : (s : Bytes) → PlainFile s → slashes s ≡ 0
  unfolding slashes
  slashes-file [] h = refl
  slashes-file (c ∷ s) h = ground (arith, h.0, slashes-file s h.1)

  no_newline : (s : Bytes) → PlainFile s → any (λ c. c == 10) s ≡ false
  no_newline [] h = refl
  no_newline (c ∷ s) h = ground (arith, h.0, no_newline s h.1)

  match-tail : match_file tail ≡ some (record { namespace = []; pod = []; file = file })
  unfolding match_file tail
  match-tail =
      ground (arith, cut_prefix-append (codes "/controlfiles/") file, no_newline file plain)

  match_pod_rest-name :
      (s : Bytes)
      → All PlainChar s
      → match_pod_rest (s ++ tail) ≡ some (record { namespace = []; pod = s; file = file })
  unfolding match_pod_rest first_match push_pod
  match_pod_rest-name [] h =
      match_pod_rest-file tail (record { namespace = []; pod = []; file = file }) match-tail
  match_pod_rest-name (c ∷ s) h =
      ground (arith, h.0, match_file-other c (s ++ tail) h.0.1, match_pod_rest-name s h.1)

  slashes-name : (s : Bytes) → All PlainChar s → slashes s ≡ 0
  unfolding slashes
  slashes-name [] h = refl
  slashes-name (c ∷ s) h = ground (arith, h.0, slashes-name s h.1)

  slashes-tail : slashes tail ≡ 2
  unfolding tail
  slashes-tail =
      omega
        (arith, slashes-append (codes "/controlfiles/") file, slashes-file file plain, two_slashes)

  module _ (c : ℕ) (pod : Bytes) (name : PlainName (c ∷ pod)) where
    no_deeper : match_namespace_rest (c ∷ (pod ++ tail)) ≡ none
    no_deeper =
        match_namespace_rest-none (c ∷ (pod ++ tail))
          (omega (arith, slashes-append (c ∷ pod) tail, slashes-name (c ∷ pod) name, slashes-tail))

    match_namespace_rest-name :
        (s : Bytes)
        → All PlainChar s
        → match_namespace_rest (s ++ b'/' ∷ c ∷ (pod ++ tail))
          ≡ some (record { namespace = s; pod = c ∷ pod; file = file })
    unfolding match_namespace_rest first_match push_namespace match_pod push_pod
    match_namespace_rest-name [] h =
        ground (arith, name.0, no_deeper, match_pod_rest-name pod name.1)
    match_namespace_rest-name (d ∷ s) h = ground (arith, h.0, match_namespace_rest-name s h.1)

-- The path of a file in the directory of control files of a pod gives back the namespace, the pod
-- and the file, if the directory of HPK is absolute, neither name is empty or has a blank or a slash,
-- and the file has no newline or slash.
pub parse_control_file_path-path :
    (hpk namespace pod file : Bytes)
    → is_abs hpk ≡ true
    → PlainName namespace
    → PlainName pod
    → PlainFile file
    → parse_control_file_path hpk
        (hpk ++ b'/' ∷ (namespace ++ b'/' ∷ (pod ++ (codes "/controlfiles/" ++ file))))
      ≡ some (record { namespace = namespace; pod = pod; file = file })
unfolding parse_control_file_path match_path push_namespace is_abs trim_prefix tail
parse_control_file_path-path [] namespace pod file a n p f = ground arith
parse_control_file_path-path (h ∷ hpk) [] pod file a n p f = absurd n
parse_control_file_path-path (h ∷ hpk) (d ∷ namespace) [] file a n p f = absurd p
parse_control_file_path-path (h ∷ hpk) (d ∷ namespace) (c ∷ pod) file a n p f = ground (
  arith,
  a,
  n.0,
  cut_prefix-append (h ∷ hpk)
      (b'/' ∷ d ∷ (namespace ++ b'/' ∷ c ∷ (pod ++ (codes "/controlfiles/" ++ file)))),
  match_namespace_rest-name file f c pod p namespace n.1,
)
