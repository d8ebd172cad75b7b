-- ===== src/Base/FilePath.antt =====
-- Package path/filepath on a system with the separator '/'.
use Prim.Native.Nat.{ℕ}
use mathlib.Core.Bool.{Bool, true, false, ◌||◌}
use mathlib.Core.List.{List, [], ◌∷◌, reverse}
use hpktainer.Base.Tests.{◌==◌, if◌then◌else◌}
use hpktainer.Base.ByteStrings.{Bytes, codes, beq}
use hpktainer.Base.Text.{split, join}

abbrev pub separator : ℕ
separator = b'/'

unfoldable pub is_abs : Bytes → Bool
is_abs [] = false
is_abs (c ∷ s) = c == separator

-- `..` drops the last element, unless there is none or it is `..` itself.
up : Bool → List Bytes → List Bytes
up rooted [] = if rooted then [] else codes ".." ∷ []
up rooted (e ∷ out) = if beq e (codes "..") then codes ".." ∷ e ∷ out else out

clean_step : Bool → Bytes → List Bytes → List Bytes
unfolding up
clean_step rooted e out =
    if beq e [] || beq e (codes ".")
    then out
    else if beq e (codes "..")
    then up rooted out
    else e ∷ out

-- The elements kept, the last one first.
clean_elements : Bool → List Bytes → List Bytes → List Bytes
unfolding clean_step
clean_elements rooted [] out = out
clean_elements rooted (e ∷ es) out = clean_elements rooted es (clean_step rooted e out)

clean_text : Bool → Bytes → Bytes
clean_text true s = separator ∷ s
clean_text false [] = codes "."
clean_text false (c ∷ s) = c ∷ s

-- filepath.Clean.
unfoldable pub clean : Bytes → Bytes
unfolding clean_elements clean_text is_abs
clean path =
    clean_text (is_abs path)
      (join (reverse (clean_elements (is_abs path) (split path separator) [])) separator)

-- filepath.Join: leading empty elements are dropped, and nothing is joined to the empty text.
unfoldable pub join_path : List Bytes → Bytes
unfolding clean
join_path [] = []
join_path ([] ∷ es) = join_path es
join_path ((c ∷ e) ∷ es) = clean (join ((c ∷ e) ∷ es) separator)

-- filepath.Ext: the suffix from the last dot of the last element on.
unfoldable pub ext_from : Bytes → Bytes → Bytes
ext_from [] found = found
ext_from (c ∷ s) found =
    ext_from s (if c == separator then [] else if c == b'.' then c ∷ s else found)

unfoldable pub ext : Bytes → Bytes
unfolding ext_from
ext path = ext_from path []
