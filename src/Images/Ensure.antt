-- ===== src/Images/Ensure.antt =====
-- A successful run leaves the stack's image, and the first build of a stack two levels above its
-- base fails without a registry.
use ccbox.Common.{
  ◌≡◌, ◌∙◌, refl, inl, inr, true, false, Option, none, some, arith, Bytes, Bool-cases,
}
use ccbox.Stacks.Defs.{LanguageStack, stack_base, stack_dependency}
use ccbox.Images.Defs.{
  Daemon, ImageOptions, ImagesError, base_failed, get_image_name, registry_image_name,
  image_version, dockerfile_from, pull_image, try_pull, build_image, ensure_base, build_stack,
  ensure_images,
}

-- Each stack's Dockerfile starts from the image of the parent that the dependency table names.
dockerfile_from-stack_dependency : (s : LanguageStack) → dockerfile_from s ≡ stack_dependency s
unfolding dockerfile_from stack_dependency
dockerfile_from-stack_dependency stack_base = refl
dockerfile_from-stack_dependency _ = refl

-- What Docker documents: a tag or a build that succeeds leaves an image of that name.
pub record TagsAndBuilds (d : Daemon) : Type 0 where
  pub tagged :
      (w : d.World) (ref name : Bytes)
      → (d.tag w ref name).1 ≡ true
      → d.exists (d.tag w ref name).0 name ≡ true
  pub built :
      (w : d.World) (s : LanguageStack) (name : Bytes)
      → (d.build w s name).1 ≡ true
      → d.exists (d.build w s name).0 name ≡ true

-- A build fails, with nothing changed, while the image that its Dockerfile starts from is missing.
abbrev pub NeedsFrom : Daemon → Type 0
NeedsFrom d =
    (w : d.World) (s p : LanguageStack) (name : Bytes)
    → dockerfile_from s ≡ some p
    → d.exists w (get_image_name p) ≡ false
    → d.build w s name ≡ (w, false)

module _ (d : Daemon) (opts : ImageOptions) where
  pull_image-exists :
      TagsAndBuilds d
      → (w : d.World) (s : LanguageStack) → (pull_image d opts w s).1 ≡ true
      → d.exists (pull_image d opts w s).0 (get_image_name s) ≡ true
  unfolding pull_image
  pull_image-exists t w s h =
      let ref = registry_image_name opts.registry s (image_version opts.version) in
      elim (Bool-cases (d.pull w ref).1) [
        | inl e ↦ rw e (t.tagged (d.pull w ref).0 ref (get_image_name s) (rw e at h))
        | inr e ↦ absurd (ground arith)
      ]

  try_pull-exists :
      TagsAndBuilds d
      → (w : d.World) (s : LanguageStack) → (try_pull d opts w s).1 ≡ true
      → d.exists (try_pull d opts w s).0 (get_image_name s) ≡ true
  unfolding try_pull
  try_pull-exists t w s h = ground (arith, pull_image-exists t w s)

  try_pull_none :
      opts.no_pull ≡ true → (w : d.World) (s : LanguageStack) → try_pull d opts w s ≡ (w, false)
  unfolding try_pull
  try_pull_none n w s = ground arith

  build_image-exists :
      TagsAndBuilds d
      → (w : d.World) (s : LanguageStack) → (build_image d opts w s).1 ≡ true
      → d.exists (build_image d opts w s).0 (get_image_name s) ≡ true
  unfolding build_image
  build_image-exists t w s h = elim (Bool-cases (d.write_build_files w s).1) [
    | inl e ↦ rw e (t.built (d.write_build_files w s).0 s (get_image_name s) (rw e at h))
    | inr e ↦ absurd (ground arith)
  ]

  build_stack-exists :
      TagsAndBuilds d
      → (s : LanguageStack) (r : d.World × Option ImagesError) → (build_stack d opts s r).1 ≡ none
      → d.exists (build_stack d opts s r).0 (get_image_name s) ≡ true
  unfolding build_stack
  build_stack-exists t s (w, some e) h = absurd (ground arith)
  build_stack-exists t s (w, none) h = elim (Bool-cases (build_image d opts w s).1) [
    | inl e ↦ rw e (build_image-exists t w s e)
    | inr e ↦ absurd (ground arith)
  ]

  -- Where a successful tag or build leaves an image of its name, and `ensureImages` reports no error,
  -- the stack's image exists.
  pub ensure_images-exists :
      TagsAndBuilds d
      → (w : d.World) (s : LanguageStack) → (ensure_images d opts w s).1 ≡ none
      → d.exists (ensure_images d opts w s).0 (get_image_name s) ≡ true
  unfolding ensure_images
  ensure_images-exists t w s h = elim (Bool-cases (d.exists w (get_image_name s))) [
    | inl e ↦ rw e e
    | inr e ↦ elim (Bool-cases (try_pull d opts w s).1) [
      | inl p ↦ rw (e, p) (try_pull-exists t w s p)
      | inr p ↦
          rw (e, p)
            (build_stack-exists t s
              (ensure_base d opts (try_pull d opts w s).0 (stack_dependency s)) (rw (e, p) at h))
    ]
  ]

  ensure_base_fails :
      NeedsFrom d
      → opts.no_pull ≡ true
      → (w : d.World) (p g : LanguageStack) → stack_dependency p ≡ some g
      → d.write_build_files w p ≡ (w, true)
      → d.exists w (get_image_name p) ≡ false
      → d.exists w (get_image_name g) ≡ false
      → ensure_base d opts w (some p) ≡ (w, some base_failed)
  unfolding ensure_base build_image
  ensure_base_fails needs n w p g pg wr ep eg =
      let fails = needs w p g (get_image_name p) (dockerfile_from-stack_dependency p ∙ pg) eg in
      simp (try_pull_none n w p, ep, wr, fails) refl

  -- Where a build fails without the image that it starts from, `ensureImages` fails without the
  -- registry for a stack that has no image, whose parent has none and whose parent's parent has none,
  -- once the parent's build files are written.
  pub ensure_images_two_levels :
      NeedsFrom d
      → opts.no_pull ≡ true
      → (w : d.World) (s p g : LanguageStack) → stack_dependency s ≡ some p
      → stack_dependency p ≡ some g
      → d.write_build_files w p ≡ (w, true)
      → d.exists w (get_image_name s) ≡ false
      → d.exists w (get_image_name p) ≡ false
      → d.exists w (get_image_name g) ≡ false
      → ensure_images d opts w s ≡ (w, some base_failed)
  unfolding ensure_images build_stack
  ensure_images_two_levels needs n w s p g sp pg wr es ep eg =
      simp (try_pull_none n w s, es, sp, ensure_base_fails needs n w p g pg wr ep eg) refl
