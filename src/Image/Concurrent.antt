-- ===== src/Image/Concurrent.antt =====
-- Pulls of one image by several goroutines at once: the lock of getPullLock in
-- internal/compute/image/pull.go, as steps that the goroutines take in any order. Both looks are
-- resolve_local of Image, on the files as they are at that step; the files change only by the renaming
-- of a download, which is that of after_download with success.
use hpktainer.Base.{
  ℕ, suc, ◌≡◌, ◌≤◌, refl, Bool, true, false, Option, none, some, if◌then◌else◌, ◌==◌, arith, Bytes,
  codes, beq, beq_iff, has_prefix,
}
use hpktainer.Image.{Node, regular, Located, located, image_path, resolve_local, of_file}
use hpktainer.Image.Downloads.{Missing}

-- How far a goroutine is in Pull: before its first look, before lock.Lock(), at the look under the
-- lock, in the download, or returned.
pub data Position : Type 0 where
  before_look before_lock locked_look downloading left : Position

abbrev pub holds : Position → Bool
holds locked_look = true
holds downloading = true
holds _ = false

-- `stat` gives the files; `completed` counts the downloads that were renamed to the target.
pub record Pulls : Type 0 where
  pub positions : ℕ → Position
  pub holder : Option ℕ
  pub stat : Bytes → Node
  pub completed : ℕ

abbrev pub set_position : ℕ → Position → (ℕ → Position) → ℕ → Position
set_position i position positions j = if j == i then position else positions j

abbrev pub set_regular : Bytes → (Bytes → Node) → Bytes → Node
set_regular path stat other = if beq other path then regular else stat other

-- Any files may be there at the start.
unfoldable pub start_pulls : (Bytes → Node) → Pulls
start_pulls stat = record {
  positions = λ i. before_look;
  holder = none;
  stat = stat;
  completed = 0;
}

abbrev pub go_to : ℕ → Position → Pulls → Pulls
go_to i position p = record p { positions = set_position i position p.positions }

-- lock.Lock() returns.
unfoldable pub acquire : ℕ → Pulls → Pulls
acquire i p = record p { positions = set_position i locked_look p.positions; holder = some i }

-- The deferred lock.Unlock().
pub release : ℕ → Pulls → Pulls
release i p = record p { positions = set_position i left p.positions; holder = none }

-- The renaming of the temporary file to the target succeeds, and the lock is released.
unfoldable pub complete : Bytes → ℕ → Pulls → Pulls
complete target i p = record p {
  positions = set_position i left p.positions;
  holder = none;
  stat = set_regular target p.stat;
  completed = suc p.completed;
}

pub data Step (dir name : Bytes) (p : Pulls) : Pulls → Type 0 where
  look_found :
      (i : ℕ) (path : Bytes)
      → p.positions i ≡ before_look
      → resolve_local p.stat dir name ≡ located path
      → Step dir name p (go_to i left p)
  look_missing :
      (i : ℕ)
      → p.positions i ≡ before_look
      → Missing (resolve_local p.stat dir name)
      → Step dir name p (go_to i before_lock p)
  locks : (i : ℕ) → p.positions i ≡ before_lock → p.holder ≡ none → Step dir name p (acquire i p)
  again_found :
      (i : ℕ) (path : Bytes)
      → p.positions i ≡ locked_look
      → resolve_local p.stat dir name ≡ located path
      → Step dir name p (release i p)
  again_missing :
      (i : ℕ)
      → p.positions i ≡ locked_look
      → Missing (resolve_local p.stat dir name)
      → Step dir name p (go_to i downloading p)
  fails : (i : ℕ) → p.positions i ≡ downloading → Step dir name p (release i p)
  succeeds :
      (i : ℕ) → p.positions i ≡ downloading → Step dir name p (complete (image_path dir name) i p)

pub data Reachable (dir name : Bytes) : Pulls → Type 0 where
  start : (stat : Bytes → Node) → Reachable dir name (start_pulls stat)
  next : {p q : Pulls} → Reachable dir name p → Step dir name p q → Reachable dir name q

abbrev pub is_located : Located → Bool
is_located (located path) = true
is_located _ = false

-- A goroutine that looks under the lock or downloads holds the lock, and while one downloads the image
-- is not there. Unless the name is an absolute path, at most one download is completed, and the image
-- is there from then on.
pub record Exclusive (dir name : Bytes) (p : Pulls) : Type 0 where
  pub holding : (i : ℕ) → holds (p.positions i) ≡ true → p.holder ≡ some i
  pub absent :
      (i : ℕ) → p.positions i ≡ downloading → is_located (resolve_local p.stat dir name) ≡ false
  pub once : has_prefix name (codes "/") ≡ false → p.completed ≤ 1
  pub there :
      has_prefix name (codes "/") ≡ false
      → p.completed ≡ 1
      → is_located (resolve_local p.stat dir name) ≡ true

Missing-is_located : (l : Located) → Missing l → is_located l ≡ false
Missing-is_located l m = ground arith

set_regular_self : (path : Bytes) (stat : Bytes → Node) → set_regular path stat path ≡ regular
set_regular_self path stat = ground (arith, beq_iff path path)

-- After the renaming the image is there, if its name is no absolute path.
resolve_local-set_regular :
    (stat : Bytes → Node) (dir name : Bytes)
    → has_prefix name (codes "/") ≡ false
    → is_located (resolve_local (set_regular (image_path dir name) stat) dir name) ≡ true
unfolding resolve_local of_file
resolve_local-set_regular stat dir name r = rw (r, set_regular_self (image_path dir name) stat) refl

step-Exclusive :
    (dir name : Bytes) {p q : Pulls}
    → Step dir name p q
    → Exclusive dir name p
    → Exclusive dir name q
unfolding acquire release complete
step-Exclusive dir name (look_found i path e f) x = record {
  holding = λ j h. ground (arith, x.holding j);
  absent = λ j h. ground (arith, x.absent j);
  once = x.once;
  there = x.there;
}
step-Exclusive dir name (look_missing i e f) x = record {
  holding = λ j h. ground (arith, x.holding j);
  absent = λ j h. ground (arith, x.absent j);
  once = x.once;
  there = x.there;
}
step-Exclusive dir name (locks i e f) x = record {
  holding = λ j h. ground (arith, x.holding j);
  absent = λ j h. ground (arith, x.absent j);
  once = x.once;
  there = x.there;
}
step-Exclusive dir name (again_found i path e f) x = record {
  holding = λ j h. ground (arith, x.holding j, x.holding i);
  absent = λ j h. ground (arith, x.absent j);
  once = x.once;
  there = x.there;
}
step-Exclusive dir name {p} (again_missing i e f) x =
    let missing = Missing-is_located (resolve_local p.stat dir name) f in
    record {
      holding = λ j h. ground (arith, x.holding j, x.holding i);
      absent = λ j h. missing;
      once = x.once;
      there = x.there;
    }
step-Exclusive dir name (fails i e) x = record {
  holding = λ j h. ground (arith, x.holding j, x.holding i);
  absent = λ j h. ground (arith, x.absent j);
  once = x.once;
  there = x.there;
}
step-Exclusive dir name {p} (succeeds i e) x = record {
  holding = λ j h. ground (arith, x.holding j, x.holding i);
  absent = λ j h. absurd (ground (arith, x.holding j, x.holding i));
  once = λ r. ground (arith, x.once r, x.there r, x.absent i e);
  there = λ r c. resolve_local-set_regular p.stat dir name r;
}

-- In any order of the goroutines, and whatever files are there at the start: at most one of them at a
-- time looks under the lock or downloads, and nothing is downloaded while ResolveLocal finds the image.
-- Unless the name of the image is an absolute path, a download is completed once at most, and
-- ResolveLocal finds the image from then on.
pub Reachable-Exclusive :
    (dir name : Bytes) {p : Pulls} → Reachable dir name p → Exclusive dir name p
unfolding start_pulls
Reachable-Exclusive dir name (start stat) = record {
  holding = λ i h. absurd (ground arith);
  absent = λ i h. absurd (ground arith);
  once = λ r. omega arith;
  there = λ r c. absurd (ground arith);
}
Reachable-Exclusive dir name (next r s) = step-Exclusive dir name s (Reachable-Exclusive dir name r)
