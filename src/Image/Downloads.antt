-- ===== src/Image/Downloads.antt =====
-- What Pull of internal/compute/image/pull.go leaves behind.
use hpktainer.Base.{Bool, true, false, List, [], ◌∷◌, ◌++◌, Bytes, ◌≡◌, refl}
use hpktainer.Image.{
  Located, located, not_found, not_regular, download_failed, rename_failed, image_path,
  resolve_local, Effect, lock, unlock, remove, download, rename, Surroundings, tmp_file,
  after_download, pull_image_name, fetch, check_again, with_lock, first_look, pull, wrap,
}

-- The effects of a pull that had to download, between its lock and its unlock: the download to a
-- temporary file, and then the file is renamed to the target, or removed, or both were tried.
abbrev pub Fetched : Bytes → Bytes → List Effect → Located → Type 0
Fetched target tmp (rename a b ∷ []) result = (a ≡ tmp) × ((b ≡ target) × (result ≡ located target))
Fetched target tmp (remove a ∷ []) result = (a ≡ tmp) × (result ≡ download_failed)
Fetched target tmp (rename a b ∷ remove c ∷ []) result =
    (a ≡ tmp) × ((b ≡ target) × ((c ≡ tmp) × (result ≡ rename_failed)))
Fetched target tmp _ result = ⊥

after_download-Fetched :
    (downloads renames : Bool) (tmp target : Bytes)
    → let r = after_download downloads renames tmp target in Fetched target tmp r.0 r.1
unfolding after_download
after_download-Fetched false renames tmp target = (refl, refl)
after_download-Fetched true false tmp target = (refl, (refl, (refl, refl)))
after_download-Fetched true true tmp target = (refl, (refl, refl))

-- The image is not there as a file.
abbrev pub Missing : Located → Type 0
Missing (located path) = ⊥
Missing _ = Unit

-- No effect at all if the first look finds the image, the lock alone if only the look under the lock
-- finds it, or a download under the lock if neither does.
pub data Tidy (s : Surroundings) (dir transport name : Bytes) : List Effect → Located → Type 0 where
  present :
      (path : Bytes)
      → resolve_local s.stat dir name ≡ located path
      → Tidy s dir transport name [] (located path)
  pulled_meanwhile :
      (path : Bytes)
      → Missing (resolve_local s.stat dir name)
      → resolve_local s.stat_locked dir name ≡ located path
      → Tidy s dir transport name
          (lock (image_path dir name) ∷ unlock (image_path dir name) ∷ [])
          (located path)
  downloaded :
      (effects : List Effect) (result : Located)
      → Missing (resolve_local s.stat dir name)
      → Missing (resolve_local s.stat_locked dir name)
      → Fetched (image_path dir name) (tmp_file s.unix_nano (image_path dir name)) effects result
      → Tidy s dir transport name
          (lock (image_path dir name)
            ∷ download
                (tmp_file s.unix_nano (image_path dir name))
                (wrap transport (pull_image_name name))
            ∷ (effects ++ unlock (image_path dir name) ∷ []))
          result

module _ (s : Surroundings) (dir transport name : Bytes) where
  fetched :
      Missing (resolve_local s.stat dir name)
      → Missing (resolve_local s.stat_locked dir name)
      → Tidy s dir transport name
          (with_lock (image_path dir name) (fetch s (image_path dir name) transport name)).0
          (with_lock (image_path dir name) (fetch s (image_path dir name) transport name)).1
  unfolding with_lock fetch
  fetched m n = downloaded _ _ m n (
      after_download-Fetched s.downloads s.renames (tmp_file s.unix_nano (image_path dir name))
        (image_path dir name))

  again :
      (l : Located)
      → Missing (resolve_local s.stat dir name)
      → resolve_local s.stat_locked dir name ≡ l
      → let r =
          with_lock (image_path dir name) (check_again l s (image_path dir name) transport name) in
        Tidy s dir transport name r.0 r.1
  unfolding check_again with_lock
  again (located path) m h = pulled_meanwhile path m h
  again not_found m h = fetched m (rw h tt)
  again not_regular m h = fetched m (rw h tt)
  again download_failed m h = fetched m (rw h tt)
  again rename_failed m h = fetched m (rw h tt)

  looked :
      (l : Located)
      → resolve_local s.stat dir name ≡ l
      → let r = first_look l s dir transport name in Tidy s dir transport name r.0 r.1
  unfolding first_look
  looked (located path) h = present path h
  looked not_found h = again _ (rw h tt) refl
  looked not_regular h = again _ (rw h tt) refl
  looked download_failed h = again _ (rw h tt) refl
  looked rename_failed h = again _ (rw h tt) refl

  -- A pull does nothing if its first look finds the image; otherwise it works under the lock of its
  -- target, which it always gives back: if the look under the lock finds the image it does nothing more,
  -- and only if neither look finds it, it downloads to a temporary file, which is renamed to the target
  -- or removed, and then only the renamed file is returned.
  pub pull-Tidy : let r = pull s dir transport name in Tidy s dir transport name r.0 r.1
  unfolding pull
  pull-Tidy = looked _ refl
