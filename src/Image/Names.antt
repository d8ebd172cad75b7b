-- ===== src/Image/Names.antt =====
-- The names that ParseImageName of internal/compute/image/pull.go gives to images.
use hpktainer.Base.{
  ℕ, Bool, true, false, Option, none, some, [], ◌∷◌, ◌++◌, Bytes, codes, ◌≡◌, ◌≢◌, refl, ap, sym,
  ◌∙◌, arith, All, All-append, Lacks, split, split-Lacks, split-append, beq, append-cons-ne-nil,
  Bool-cases, inl, inr,
}
use hpktainer.Image.{
  is_kept, replace_runs, split_once, digest_suffix, ref_and_tag, file_name, name_of,
  parse_image_name,
}

-- Letters, digits, dots, dashes and underscores.
abbrev pub Plain : Bytes → Type 0
Plain = All (λ c. is_kept c ≡ true)

Plain-replace_runs : (in_run : Bool) (s : Bytes) → Plain (replace_runs in_run s)
unfolding replace_runs
Plain-replace_runs in_run [] = tt
Plain-replace_runs in_run (c ∷ s) = elim (Bool-cases (is_kept c)) [
  | inl e ↦ rw e (e, Plain-replace_runs false s)
  | inr e ↦ rw e (elim (Bool-cases in_run) [
    | inl r ↦ rw r (Plain-replace_runs true s)
    | inr r ↦ rw r (refl, Plain-replace_runs true s)
  ])
]

Plain-digest_suffix : (digest : Option Bytes) → Plain (digest_suffix digest)
unfolding digest_suffix
Plain-digest_suffix none = tt
Plain-digest_suffix (some []) = tt
Plain-digest_suffix (some (c ∷ d)) = elim (Bool-cases (beq (replace_runs false (c ∷ d)) [])) [
  | inl e ↦ rw e tt
  | inr e ↦ rw e (refl, Plain-replace_runs false (c ∷ d))
]

-- A file directly below the directory to which it is appended.
abbrev pub Flat : Bytes → Type 0
Flat name = (rest : Bytes) × ((name ≡ b'/' ∷ rest) × Plain rest)

Flat-name_of : (parts : Bytes × Option Bytes) → Flat (name_of parts)
unfolding name_of file_name
Flat-name_of (name, digest) =
    let (image_ref, tag) = ref_and_tag (split name b':') in
    let end : Plain (codes ".sif") = (refl, (refl, (refl, (refl, tt)))) in
    let suffix =
      All-append (λ c. is_kept c ≡ true) (digest_suffix digest) (codes ".sif")
        (Plain-digest_suffix digest) end in
    let tagged =
      All-append (λ c. is_kept c ≡ true) (replace_runs false tag) _ (Plain-replace_runs false tag)
        suffix in
    let all =
      All-append (λ c. is_kept c ≡ true) (replace_runs false image_ref) (b'_' ∷ _)
        (Plain-replace_runs false image_ref) (refl, tagged) in
    (_, (refl, all))

-- Whatever the name of the image, its file stands directly in the image directory: the result is a
-- slash and then only letters, digits, dots, dashes and underscores.
pub parse_image_name-Flat : (raw : Bytes) → Flat (parse_image_name raw)
unfolding parse_image_name
parse_image_name-Flat [] =
    let unnamed : Plain (codes "unnamed.sif") = ground arith in
    (codes "unnamed.sif", (refl, unnamed))
parse_image_name-Flat (c ∷ raw) = Flat-name_of (split_once b'@' (c ∷ raw))

split_once-Lacks : (sep : ℕ) (s : Bytes) → Lacks sep s → split_once sep s ≡ (s, none)
unfolding split_once
split_once-Lacks sep [] l = refl
split_once-Lacks sep (c ∷ s) l = ground (arith, split_once-Lacks sep s l.1)

parse-split : (s : Bytes) → s ≢ [] → Lacks b'@' s → parse_image_name s ≡ name_of (s, none)
unfolding parse_image_name
parse-split [] n l = absurd (n refl)
parse-split (c ∷ s) n l = ap name_of (split_once-Lacks b'@' (c ∷ s) l)

Lacks-append-cons : (s t : Bytes) → Lacks b'@' s → Lacks b'@' t → Lacks b'@' (s ++ b':' ∷ t)
Lacks-append-cons s t h k = All-append (λ c. c ≢ b'@') s (b':' ∷ t) h (omega arith, k)

ref_and_tag-tagged :
    (host path tag : Bytes)
    → Lacks b':' host
    → Lacks b':' path
    → ref_and_tag (split (host ++ b':' ∷ (path ++ b':' ∷ tag)) b':') ≡ (host, path)
unfolding ref_and_tag
ref_and_tag-tagged host path tag hc pc =
    rw (split-append host (path ++ b':' ∷ tag) b':' hc, split-append path tag b':' pc) refl

ref_and_tag-untagged :
    (host path : Bytes)
    → Lacks b':' host
    → Lacks b':' path
    → ref_and_tag (split (host ++ b':' ∷ path) b':') ≡ (host, path)
unfolding ref_and_tag
ref_and_tag-untagged host path hc pc =
    rw (split-append host path b':' hc, split-Lacks path b':' pc) refl

-- If the part before the first colon and the part up to the next one contain no colon and no `@`, as
-- for a registry with a port, and the tag behind the second colon contains no `@`, so that there is no
-- digest, then the name of the file does not depend on the tag: all tags of an image from such a
-- registry share one file.
pub parse_image_name-port :
    (host path tag : Bytes)
    → Lacks b':' host
    → Lacks b':' path
    → Lacks b'@' host
    → Lacks b'@' path
    → Lacks b'@' tag
    → parse_image_name (host ++ b':' ∷ (path ++ b':' ∷ tag))
      ≡ parse_image_name (host ++ b':' ∷ path)
unfolding name_of
parse_image_name-port host path tag hc pc ha pa ta =
    parse-split (host ++ b':' ∷ (path ++ b':' ∷ tag)) (append-cons-ne-nil host b':' _)
      (Lacks-append-cons host (path ++ b':' ∷ tag) ha (Lacks-append-cons path tag pa ta))
    ∙ ap (λ (r : Bytes × Bytes). file_name r (digest_suffix none))
        (ref_and_tag-tagged host path tag hc pc ∙ sym (ref_and_tag-untagged host path hc pc))
    ∙ sym (
        parse-split (host ++ b':' ∷ path) (append-cons-ne-nil host b':' path)
          (Lacks-append-cons host path ha pa))
