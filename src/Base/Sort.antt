-- ===== src/Base/Sort.antt =====
-- sort.Strings: byte-wise order, by insertion.

use mathlib.Core.Bool.{Bool, true, false, ◌&&◌, ◌||◌}
use mathlib.Core.List.{List, [], ◌∷◌}
use hpktainer.Base.Tests.{◌==◌, ltb, if◌then◌else◌}
use hpktainer.Base.ByteStrings.{Bytes}

unfoldable pub leb_bytes : Bytes → Bytes → Bool
leb_bytes [] t = true
leb_bytes (a ∷ s) [] = false
leb_bytes (a ∷ s) (b ∷ t) = ltb a b || (a == b && leb_bytes s t)

unfoldable pub insert_sorted : Bytes → List Bytes → List Bytes
insert_sorted s [] = s ∷ []
insert_sorted s (t ∷ ts) = if leb_bytes s t then s ∷ t ∷ ts else t ∷ insert_sorted s ts

unfoldable pub sort_strings : List Bytes → List Bytes
sort_strings [] = []
sort_strings (s ∷ ss) = insert_sorted s (sort_strings ss)
