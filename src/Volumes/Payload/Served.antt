-- ===== src/Volumes/Payload/Served.antt =====
-- What SetUpAt of internal/compute/volume/configmap and secret writes. Their backoff, in
-- internal/compute/volume/volume.go, has four steps.
use hpktainer.Base.{
  ℕ, ℤ, Bool, true, false, Option, none, some, List, [], ◌∷◌, Bytes, ◌≡◌, ◌<◌, ◌⊎◌, inl, inr, refl,
  sym, ap, ◌∙◌, arith,
}
use hpktainer.Volumes.{not_found, Result, ok, err, Effect, write_payload, Retry, Retries}
use hpktainer.Volumes.Claims.{is_not_found}
use hpktainer.Volumes.Payload.{
  FileProjection, Files, KeyToPath, ConfigMap, Secret, config_map_content, secret_content,
  make_config_map_payload, make_secret_payload, or_empty, fetch_object, Writer, write_files,
  write_result, ObjectSource, is_optional, and_then_files, config_map_payload, set_up_config_map,
  secret_payload, set_up_secret,
}
use hpktainer.Volumes.Payload.Made.{
  config_map_file, secret_file, Made, make_config_map_payload-Made, make_secret_payload-Made,
}

-- Where the object comes from: from one of four attempts, or it is the empty object in the place of an
-- optional one that is not found.
abbrev pub Fetched : {A : Type 0} → Bool → A → (ℕ → Result A) → A → Type 0
Fetched optional empty get a =
    ((n : ℕ) × ((n < 4) × (get n ≡ ok a)))
    ⊎ ((optional ≡ true) × ((get 0 ≡ err not_found) × (a ≡ empty)))

or_empty-Fetched :
    {A : Type 0} (empty : A) (get : ℕ → Result A) (r : Result A) (a : A)
    → get 0 ≡ r
    → or_empty empty r ≡ ok a
    → Fetched true empty get a
unfolding or_empty
or_empty-Fetched empty get (ok b) a f e = inl (0, (omega arith, f ∙ e))
or_empty-Fetched empty get (err not_found) a f e = inr (refl, (f, ground arith))
or_empty-Fetched empty get (err _) a f e = absurd (ground arith)

fetch_object-Fetched :
    {A : Type 0} (optional : Bool) (empty : A) (retry : Retry A) (get : ℕ → Result A) (a : A)
    → Retries 4 retry
    → fetch_object optional empty retry get ≡ ok a
    → Fetched optional empty get a
unfolding fetch_object
fetch_object-Fetched true empty retry get a h e = or_empty-Fetched empty get (get 0) a refl e
fetch_object-Fetched false empty retry get a h e =
    let r = h is_not_found get in inl (r.last, (r.last_bound, sym r.last_result ∙ e))

-- What SetUpAt has written when it gives no error.
pub record Served {A : Type 0} (source : ObjectSource) (empty : A) (get : ℕ → Result A)
    (content : A → Bytes → Option Bytes) (expected : A → ℤ → Bytes → Option FileProjection)
    (dir : Bytes) (effects : List Effect) : Type 0 where
  pub object : A
  pub mode : ℤ
  pub files : Files
  pub fetched : Fetched (is_optional source.optional) empty get object
  pub mode_given : source.default_mode ≡ some mode
  pub written : effects ≡ write_payload dir files ∷ []
  pub made :
      Made source.items (is_optional source.optional) (content object) (expected object mode) files

write_result-ok :
    (w : Writer) (dir : Bytes) (r : Result Files)
    → (write_result w dir r).1 ≡ none
    → (files : Files) × ((r ≡ ok files) × ((write_result w dir r).0 ≡ write_payload dir files ∷ []))
unfolding write_result write_files
write_result-ok w dir (err e) h = absurd (ground arith)
write_result-ok w dir (ok files) h = (files, (refl, ground arith))

and_then_files-ok :
    {A : Type 0} (r : Result A) (f : A → Result Files) (files : Files)
    → and_then_files r f ≡ ok files
    → (a : A) × ((r ≡ ok a) × (f a ≡ ok files))
unfolding and_then_files
and_then_files-ok (err e) f files h = absurd (ground arith)
and_then_files-ok (ok a) f files h = (a, (refl, h))

make_config_map_payload-mode :
    (items : List KeyToPath) (c : ConfigMap) (mode : Option ℤ) (optional : Bool) (files : Files)
    → make_config_map_payload items c mode optional ≡ ok files
    → (m : ℤ) × (mode ≡ some m)
unfolding make_config_map_payload
make_config_map_payload-mode items c none optional files e = absurd (ground arith)
make_config_map_payload-mode items c (some m) optional files e = (m, refl)

-- If the retry is that of retry.OnError with four steps, and SetUpAt of a config map gives no error, then
-- it has written one payload, of a config map that one of four attempts found, or of the empty one if
-- the config map is optional and not found at once. The source has a default mode. With no mappings the
-- files are the entries of the config map, with mappings the file at a path is that of the last mapping
-- to the path whose key is there; every mapped key is there unless the config map is optional.
pub set_up_config_map-Served :
    (w : Writer) (source : ObjectSource) (retry : Retry ConfigMap) (get : ℕ → Result ConfigMap)
    (dir : Bytes)
    → Retries 4 retry
    → (set_up_config_map w source retry get dir).1 ≡ none
    → Served source
        (record { text_data = []; binary_data = [] })
        get
        config_map_content
        (config_map_file source.items)
        dir
        (set_up_config_map w source retry get dir).0
unfolding set_up_config_map config_map_payload
set_up_config_map-Served w source retry get dir h e =
    let empty : ConfigMap = record { text_data = []; binary_data = [] } in
    let optional = is_optional source.optional in
    let (files, (made, written)) = write_result-ok w dir (config_map_payload source retry get) e in
    let (c, (got, payload)) =
      and_then_files-ok (fetch_object optional empty retry get)
        (λ c. make_config_map_payload source.items c source.default_mode optional) files made in
    let (mode, given) =
      make_config_map_payload-mode source.items c source.default_mode optional files payload in
    record {
      object = c;
      mode = mode;
      files = files;
      fetched = fetch_object-Fetched optional empty retry get c h got;
      mode_given = given;
      written = written;
      made =
          make_config_map_payload-Made source.items c mode optional files
            (ap (λ m. make_config_map_payload source.items c m optional) (sym given) ∙ payload);
    }

make_secret_payload-mode :
    (items : List KeyToPath) (s : Secret) (mode : Option ℤ) (optional : Bool) (files : Files)
    → make_secret_payload items s mode optional ≡ ok files
    → (m : ℤ) × (mode ≡ some m)
unfolding make_secret_payload
make_secret_payload-mode items s none optional files e = absurd (ground arith)
make_secret_payload-mode items s (some m) optional files e = (m, refl)

-- The same of a secret.
pub set_up_secret-Served :
    (w : Writer) (source : ObjectSource) (retry : Retry Secret) (get : ℕ → Result Secret)
    (dir : Bytes)
    → Retries 4 retry
    → (set_up_secret w source retry get dir).1 ≡ none
    → Served source
        (record { secret_data = [] })
        get
        secret_content
        (secret_file source.items)
        dir
        (set_up_secret w source retry get dir).0
unfolding set_up_secret secret_payload
set_up_secret-Served w source retry get dir h e =
    let empty : Secret = record { secret_data = [] } in
    let optional = is_optional source.optional in
    let (files, (made, written)) = write_result-ok w dir (secret_payload source retry get) e in
    let (s, (got, payload)) =
      and_then_files-ok (fetch_object optional empty retry get)
        (λ s. make_secret_payload source.items s source.default_mode optional) files made in
    let (mode, given) =
      make_secret_payload-mode source.items s source.default_mode optional files payload in
    record {
      object = s;
      mode = mode;
      files = files;
      fetched = fetch_object-Fetched optional empty retry get s h got;
      mode_given = given;
      written = written;
      made =
          make_secret_payload-Made source.items s mode optional files
            (ap (λ m. make_secret_payload source.items s m optional) (sym given) ∙ payload);
    }
