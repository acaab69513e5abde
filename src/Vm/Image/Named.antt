-- ===== src/Vm/Image/Named.antt =====
-- The disk that PrepareImageExt4Disk returns.
use slopvmrunner.Prelude.{
  if◌then◌else◌, ◌≡◌, ◌≢◌, ◌∙◌, refl, Bool, true, false, Option, none, some, [], ◌∷◌, ◌++◌, ok, inl,
  inr, Bool-cases, ◌||◌,
}
use slopvmrunner.Go.Strings.{Text, text, is_empty, eq, trim_space, trim_prefix}
use slopvmrunner.Go.Numbers.{ℤ}
use slopvmrunner.Go.Path.{join}
use slopvmrunner.Go.Path.Elements.{IsName}
use slopvmrunner.Go.Path.Join.{below_dir, join-below}
use slopvmrunner.Os.{
  World, Trace, Errno, message, return, fail, exec_as, ignore, attempt, text_of, stat, read_file,
  write_file, mkdir_all, load_image, parse_reference, resolve_digest, ◌>>=◌,
}
use slopvmrunner.Os.Answers.{
  Answers, return-Answers, fail-Answers, bind-Answers, then-Answers, ReadBy, text_of-Answers,
}
use slopvmrunner.Vm.Extract.{Archive}
use slopvmrunner.Vm.Image.{
  Prepared, disk_in, refs_dir, ref_path_of, usable_if, cached_at, cached_from, cached_disk,
  record_digest, guest_platform, write_image_to_disk, check_hex, digest_hex, build_missing,
  prepare_uncached, prepare_image_ext4_disk,
}

-- The digest of an image in hexadecimal: what the file of its reference holds, without the space
-- around it, or what the registry answers, without the prefix.
pub data DigestOf (w : World) (ref_path image_ref : Text) : Text → Type 0 where
  recorded :
      (content : Text)
      → ReadBy w (read_file ref_path) content
      → DigestOf w ref_path image_ref (trim_space content)
  resolved :
      (digest : Text)
      → ReadBy w (resolve_digest image_ref) digest
      → DigestOf w ref_path image_ref (trim_prefix digest (text "sha256:"))

module _ (w : World) (cache_dir ref_path image_ref : Text) where
  -- A digest that is not empty.
  record IsDigest (hex : Text) : Type 0 where
    digest : DigestOf w ref_path image_ref hex
    nonempty : is_empty hex ≡ false

  record IsNamed (path : Text) : Type 0 where
    hex : Text
    is_digest : IsDigest hex
    named : path ≡ disk_in cache_dir hex

  abbrev IsHit : Option Text → Type 0
  IsHit none = Unit {0}
  IsHit (some path) = IsNamed path

  abbrev IsPrepared : Prepared → Type 0
  IsPrepared p = IsNamed p.path

  usable_if-IsHit :
      (hex : Text) (e : Option Errno) → IsDigest hex → IsHit (usable_if (disk_in cache_dir hex) e)
  unfolding usable_if
  usable_if-IsHit hex none h = record { hex = hex; is_digest = h; named = refl }
  usable_if-IsHit hex (some e) h = tt

  cached_at-Answers :
      (hex : Text) → DigestOf w ref_path image_ref hex → Answers w IsHit (cached_at cache_dir hex)
  unfolding cached_at
  cached_at-Answers hex d = elim (Bool-cases (is_empty hex)) [
    | inl e ↦ rw e (return-Answers w _ none tt)
    | inr e ↦ rw e (
        then-Answers w _ (attempt (stat (disk_in cache_dir hex))) _
          (λ f. return-Answers w _ _ (usable_if-IsHit hex f (record { digest = d; nonempty = e }))))
  ]

  cached_from-Answers : (e : Option Errno) → Answers w IsHit (cached_from cache_dir ref_path e)
  unfolding cached_from
  cached_from-Answers (some e) = return-Answers w _ none tt
  cached_from-Answers none =
      bind-Answers w _ _ (text_of (read_file ref_path)) _ (text_of-Answers w (read_file ref_path))
        (λ content r. cached_at-Answers (trim_space content) (recorded content r))

  cached_disk-Answers : Answers w IsHit (cached_disk cache_dir ref_path)
  unfolding cached_disk
  cached_disk-Answers = then-Answers w _ (attempt (read_file ref_path)) _ cached_from-Answers

  check_hex-Answers :
      (hex : Text) → DigestOf w ref_path image_ref hex → Answers w IsDigest (check_hex hex)
  unfolding check_hex
  check_hex-Answers hex d = elim (Bool-cases (is_empty hex)) [
    | inl e ↦ rw e (fail-Answers w _ (message "empty manifest digest"))
    | inr e ↦ rw e (return-Answers w _ hex (record { digest = d; nonempty = e }))
  ]

  digest_hex-Answers : Answers w IsDigest (digest_hex image_ref)
  unfolding digest_hex
  digest_hex-Answers =
      then-Answers w _ (exec_as "resolve manifest digest" (resolve_digest image_ref)) _ λ _.
        bind-Answers w _ _ (text_of (resolve_digest image_ref)) _
          (text_of-Answers w (resolve_digest image_ref))
          λ digest r. check_hex-Answers (trim_prefix digest (text "sha256:")) (resolved digest r)

  record_digest-Answers :
      (hex : Text) (built : Bool)
      → IsDigest hex
      → Answers w IsPrepared (record_digest cache_dir ref_path hex built)
  unfolding record_digest
  record_digest-Answers hex built h =
      then-Answers w _ (ignore (write_file ref_path (hex ++ text "\n"))) _ (λ _.
        return-Answers w _ (record { path = disk_in cache_dir hex; built = built })
          (record { hex = hex; is_digest = h; named = refl }))

  module _ (files : Text → Archive) (size : ℤ) (label : Text) where
    build_missing-Answers :
        (hex : Text) (e : Option Errno)
        → IsDigest hex
        → Answers w IsPrepared (build_missing files cache_dir ref_path hex image_ref size label e)
    unfolding build_missing
    build_missing-Answers hex none h = record_digest-Answers hex false h
    build_missing-Answers hex (some e) h =
        then-Answers w _ (exec_as "load image descriptor" (load_image image_ref)) _ λ _.
          then-Answers w _ (write_image_to_disk files image_ref (disk_in cache_dir hex) size label)
            _ λ _. record_digest-Answers hex true h

    prepare_uncached-Answers :
        (cached : Option Text)
        → IsHit cached
        → Answers w IsPrepared
            (prepare_uncached files cache_dir ref_path image_ref size label cached)
    unfolding prepare_uncached
    prepare_uncached-Answers (some path) h = return-Answers w _ _ h
    prepare_uncached-Answers none h =
        then-Answers w _ (exec_as "parse image reference" (parse_reference image_ref)) _ λ _.
          bind-Answers w _ _ (digest_hex image_ref) _ digest_hex-Answers λ hex n.
            then-Answers w _ (attempt (stat (disk_in cache_dir hex))) _
              λ e. build_missing-Answers hex e n

guest_platform-Answers :
    (w : World) (goarch : Text) → Answers w (λ arch. arch ≡ goarch) (guest_platform goarch)
unfolding guest_platform
guest_platform-Answers w goarch = either (eq goarch (text "arm64") || eq goarch (text "amd64"))
  where
    either :
        (b : Bool)
        → Answers w
            (λ arch. arch ≡ goarch)
            (if b
              then return goarch
              else fail (message "unsupported host arch for guest platform selection"))
    either true = return-Answers w _ goarch refl
    either false = fail-Answers w _ _

-- A disk directly in the cache directory, by the name `<digest>.raw`.
pub record IsCached (w : World) (ref_path image_ref cache_dir path : Text) : Type 0 where
  pub hex : Text
  pub nonempty : is_empty hex ≡ false
  pub digest : DigestOf w ref_path image_ref hex
  pub placed : path ≡ below_dir cache_dir ((hex ++ text ".raw") ∷ [])

module _ (files : Text → Archive) where
  for_arch-Answers :
      (w : World) (arch goarch image_ref cache_dir : Text) (size : ℤ) (label : Text)
      → arch ≡ goarch
      → Answers w (IsPrepared w cache_dir (ref_path_of cache_dir image_ref goarch) image_ref) (
          ignore (mkdir_all (refs_dir cache_dir)) >>= λ _.
          cached_disk cache_dir (ref_path_of cache_dir image_ref arch) >>= λ cached.
          prepare_uncached files cache_dir
            (ref_path_of cache_dir image_ref arch)
            image_ref
            size
            label
            cached)
  for_arch-Answers w arch goarch image_ref cache_dir size label same = rw same (
      then-Answers w _ (ignore (mkdir_all (refs_dir cache_dir))) _ λ _.
        bind-Answers w _ _ (cached_disk cache_dir (ref_path_of cache_dir image_ref goarch)) _
          (cached_disk-Answers w cache_dir (ref_path_of cache_dir image_ref goarch) image_ref)
          (prepare_uncached-Answers w cache_dir (ref_path_of cache_dir image_ref goarch) image_ref
            files size label))

  prepare-Answers :
      (w : World) (goarch image_ref cache_dir : Text) (size : ℤ) (label : Text)
      → Answers w
          (IsPrepared w cache_dir (ref_path_of cache_dir image_ref goarch) image_ref)
          (prepare_image_ext4_disk files goarch image_ref cache_dir size label)
  unfolding prepare_image_ext4_disk
  prepare-Answers w goarch image_ref cache_dir size label =
      then-Answers w _ (exec_as "create image cache dir" (mkdir_all cache_dir)) _ λ _.
        bind-Answers w _ _ (guest_platform goarch) _ (guest_platform-Answers w goarch)
          λ arch same. for_arch-Answers w arch goarch image_ref cache_dir size label same

  -- Where the digests that the registry answers for an image and that the file of its reference
  -- holds are texts that with ".raw" name a file, each disk that PrepareImageExt4Disk returns, found
  -- or built, lies directly in the cache directory and is named by one of these digests, which is
  -- not empty: the file's without the space around it, the registry's without "sha256:".
  pub prepare_image_ext4_disk-IsCached :
      (w : World) (t : Trace) (goarch image_ref cache_dir : Text) (size : ℤ) (label : Text)
      {p : Prepared}
      → cache_dir ≢ []
      → ((hex : Text)
          → DigestOf w (ref_path_of cache_dir image_ref goarch) image_ref hex
          → IsName (hex ++ text ".raw"))
      → (prepare_image_ext4_disk files goarch image_ref cache_dir size label w t).result ≡ ok p
      → IsCached w (ref_path_of cache_dir image_ref goarch) image_ref cache_dir p.path
  unfolding disk_in join text
  prepare_image_ext4_disk-IsCached w t goarch image_ref cache_dir size label n names e =
      let k = (prepare-Answers w goarch image_ref cache_dir size label).answers t e in
      record {
        hex = k.hex;
        nonempty = k.is_digest.nonempty;
        digest = k.is_digest.digest;
        placed =
            k.named
            ∙ join-below cache_dir (k.hex ++ text ".raw") [] n (names k.hex k.is_digest.digest, tt);
      }
