-- ===== src/Image/Progress.antt =====
-- reportProgress in executePullWithProgress of internal/compute/image/pull.go: which percentages are
-- logged.
use hpktainer.Base.{
  ℕ, zero, suc, ◌-◌, ◌*◌, ◌/◌, ◌≤◌, ◌≡◌, refl, Bool, false, Option, none, some, List, [], ◌∷◌, ◌++◌,
  Bytes, if◌then◌else◌, ◌==◌, ◌&&◌, ltb, leb, not, arith, length, length-append,
}

-- The last bucket and the last percentage; `none` is -1.
pub record Progress : Type 0 where
  pub last_bucket : Option ℕ
  pub last_percent : Option ℕ

pub no_progress : Progress
no_progress = record { last_bucket = none; last_percent = none }

-- strings.Repeat of a byte.
repeat : ℕ → ℕ → Bytes
repeat zero c = []
repeat (suc n) c = c ∷ repeat n c

abbrev width : ℕ
width = 20

pub bar : ℕ → Bytes
unfolding repeat
bar p = let filled = p * width / 100 in repeat filled b'#' ++ repeat (width - filled) b'-'

-- `bucket <= lastBucket`.
at_most_last : ℕ → Option ℕ → Bool
at_most_last bucket none = false
at_most_last bucket (some last) = leb bucket last

-- The percentage and the bar that are logged, if any. The percentages come from up to three digits,
-- so they are not negative.
unfoldable pub report_progress : ℕ → Progress → Progress × Option (ℕ × Bytes)
unfolding at_most_last bar
report_progress p s =
    if ltb 100 p
    then (s, none)
    else if not (p == 100) && at_most_last (p / 5) s.last_bucket
    then (s, none)
    else (record { last_bucket = some (p / 5); last_percent = some p }, some (p, bar p))

logged : Option (ℕ × Bytes) → List (ℕ × Bytes) → List (ℕ × Bytes)
logged none rest = rest
logged (some line) rest = line ∷ rest

-- The loop over the percentages that the output names.
pub report_all : List ℕ → Progress → List (ℕ × Bytes)
unfolding logged
report_all [] s = []
report_all (p ∷ ps) s = let (next, line) = report_progress p s in logged line (report_all ps next)

length-repeat : (n c : ℕ) → length (repeat n c) ≡ n
unfolding repeat
length-repeat zero c = refl
length-repeat (suc n) c = omega (arith, length-repeat n c)

length-bar : (p : ℕ) → p ≤ 100 → length (bar p) ≡ width
unfolding bar
length-bar p h = omega (
  arith,
  length-append (repeat (p * 20 / 100) b'#') (repeat (20 - p * 20 / 100) b'-'),
  length-repeat (p * 20 / 100) b'#',
  length-repeat (20 - p * 20 / 100) b'-',
)

abbrev pub bucket_of : Option ℕ → ℕ
bucket_of none = 0
bucket_of (some b) = suc b

abbrev pub below_100 : List (ℕ × Bytes) → ℕ
below_100 [] = 0
below_100 ((p, line) ∷ lines) = if p == 100 then below_100 lines else suc (below_100 lines)

-- Of the lines that are logged for one image, however often and in whatever order the output names
-- percentages, at most one stands in each bucket of five below 100: from a state whose last bucket is
-- b at most 19 - b follow, and from the initial state at most 20.
pub report_all-below :
    (ps : List ℕ) (s : Progress) → below_100 (report_all ps s) ≤ 20 - bucket_of s.last_bucket
unfolding report_all report_progress logged at_most_last
report_all-below [] s = omega arith
report_all-below (p ∷ ps) s = ground (
  arith,
  report_all-below ps s,
  report_all-below ps (record { last_bucket = some (p / 5); last_percent = some p }),
)

-- Whatever percentages the output names, a line that is logged names one of at most 100, with a bar
-- of 20 characters.
pub report_progress-bar :
    (p q : ℕ) (line : Bytes) (s : Progress)
    → (report_progress p s).1 ≡ some (q, line)
    → (q ≡ p) × ((p ≤ 100) × (length line ≡ 20))
unfolding report_progress
report_progress-bar p q line s h = ground (arith, length-bar p)
