-- ===== src/Containers/Readers.antt =====
-- The control files are read back as they were written: readIntFromFile and readStringFromFile of
-- internal/compute/podhandler/podStatus.go, against what cmd/hpk-pause/main.go writes.
use hpktainer.Base.{
  ℕ, zero, suc, ◌≤◌, ◌<◌, ◌≡◌, ◌≢◌, ◌∙◌, refl, ap, none, some, [], ◌∷◌, Bytes, pos, atoi, arith,
  Solid, trim_left, trim_space, trim_space-Solid, Digits, format_uint, format_uint-Digits,
  format_uint-ne-nil, parse_magnitude, parse_magnitude-format_uint, max_i64,
}
use hpktainer.Containers.{
  ReadOutcome, content, non_empty, read_string, read_string_from_file, until_space, first_word,
  read_int, read_int_from_file,
}

-- The file is there and empty for k attempts from attempt a on, and then holds the text.
abbrev pub Holds : ℕ → ℕ → Bytes → (ℕ → ReadOutcome) → Type 0
Holds zero a out file = file a ≡ content out
Holds (suc k) a out file = (file a ≡ content []) × Holds k (suc a) out file

non_empty_lem : (s : Bytes) → s ≢ [] → non_empty s ≡ some s
unfolding non_empty
non_empty_lem [] h = absurd (h refl)
non_empty_lem (c ∷ s) h = refl

until_space-Solid : (s : Bytes) → Solid s → until_space s ≡ s
unfolding until_space
until_space-Solid [] h = refl
until_space-Solid (c ∷ s) h = ground (arith, until_space-Solid s h.1)

trim_left-Solid : (s : Bytes) → Solid s → trim_left s ≡ s
unfolding trim_left
trim_left-Solid [] h = refl
trim_left-Solid (c ∷ s) h = ground arith

first_word-Solid : (s : Bytes) → Solid s → s ≢ [] → first_word s ≡ some s
unfolding first_word
first_word-Solid s h n =
    ap (λ (t : Bytes). non_empty (until_space t)) (trim_left-Solid s h)
    ∙ ap non_empty (until_space-Solid s h)
    ∙ non_empty_lem s n

blank_text : non_empty (trim_space []) ≡ none
unfolding non_empty trim_space
blank_text = refl

blank_word : first_word [] ≡ none
unfolding first_word non_empty until_space trim_left
blank_word = refl

read_string-Holds :
    (k left a : ℕ) (file : ℕ → ReadOutcome) (out : Bytes)
    → k < left
    → Solid out
    → out ≢ []
    → Holds k a out file
    → read_string left a file ≡ some out
unfolding read_string
read_string-Holds k zero a file out h s n w = elim h [ ]
read_string-Holds zero (suc left) a file out h s n w =
    ground (arith, trim_space-Solid out s, non_empty_lem out n)
read_string-Holds (suc k) (suc left) a file out h s n w =
    ground (arith, w.0, blank_text, read_string-Holds k left (suc a) file out (omega arith) s n w.1)

read_int-Holds :
    (k left a : ℕ) (file : ℕ → ReadOutcome) (out : Bytes)
    → k < left
    → Solid out
    → out ≢ []
    → Holds k a out file
    → read_int left a file ≡ atoi out
unfolding read_int
read_int-Holds k zero a file out h s n w = elim h [ ]
read_int-Holds zero (suc left) a file out h s n w = ground (arith, first_word-Solid out s n)
read_int-Holds (suc k) (suc left) a file out h s n w =
    ground (arith, w.0, blank_word, read_int-Holds k left (suc a) file out (omega arith) s n w.1)

Digits-Solid : (s : Bytes) → Digits s → Solid s
Digits-Solid [] h = tt
Digits-Solid (c ∷ s) h = (ground arith, Digits-Solid s h.1)

atoi-Digits :
    (s : Bytes) (n : ℕ) → Digits s → parse_magnitude max_i64 s ≡ some n → atoi s ≡ some (pos n)
unfolding atoi
atoi-Digits [] n d e = unfold parse_magnitude in absurd (cc)
atoi-Digits (c ∷ s) n d e = ground arith

-- An exit code that hpk-pause writes in decimal is read back, also while the file is still empty for
-- up to two attempts.
pub read_int_from_file-exit_code :
    (k code : ℕ) (file : ℕ → ReadOutcome)
    → k < 3
    → code ≤ max_i64
    → Holds k 0 (format_uint code) file
    → read_int_from_file file ≡ some (pos code)
unfolding read_int_from_file
read_int_from_file-exit_code k code file h b w =
    read_int-Holds k 3 0 file (format_uint code) h (Digits-Solid _ (format_uint-Digits code))
      (format_uint-ne-nil code) w
    ∙ atoi-Digits (format_uint code) code (format_uint-Digits code)
        (parse_magnitude-format_uint max_i64 code b)

-- A text without white space, such as a job id, is read back unchanged, also while the file is still
-- empty for up to two attempts.
pub read_string_from_file-text :
    (k : ℕ) (text : Bytes) (file : ℕ → ReadOutcome)
    → k < 3
    → Solid text
    → text ≢ []
    → Holds k 0 text file
    → read_string_from_file file ≡ some text
unfolding read_string_from_file
read_string_from_file-text k text file h s n w = read_string-Holds k 3 0 file text h s n w
