-- ===== src/Images/Defs.antt =====
-- `ensureImages` as state passing over the daemon's state `World`.
use ccbox.Common.{Bool, false, Option, none, some, [], ◌∷◌, ◌++◌, if◌then◌else◌, Bytes, codes}
use ccbox.Stacks.Defs.{
  LanguageStack, stack_base, stack_go, stack_rust, stack_java, stack_jvm, stack_systems, stack_game,
  stack_data, stack_ai, stack_mobile, stack_fullstack, stack_cpp, stack_python, stack_dart,
  stack_web, name, stack_dependency,
}

-- The calls that `ensureImages` makes of the Docker SDK and of the writer of build files. A `Bool`
-- is `err == nil`.
pub record Daemon : Type 1 where
  pub World : Type 0
  pub exists : World → Bytes → Bool
  pub pull : World → Bytes → World × Bool
  pub tag : World → Bytes → Bytes → World × Bool
  pub write_build_files : World → LanguageStack → World × Bool
  pub build : World → LanguageStack → Bytes → World × Bool

pub record ImageOptions : Type 0 where
  pub no_pull : Bool
  pub version : Bytes
  pub registry : Bytes

pub data ImagesError : Type 0 where
  base_failed stack_failed : ImagesError

-- `fmt.Sprintf("ccbox_%s:latest", stack)`
unfoldable pub get_image_name : LanguageStack → Bytes
unfolding name
get_image_name stack = codes "ccbox_" ++ (name stack ++ codes ":latest")

-- `fmt.Sprintf("%s/%s:%s", registryBase(), stack, version)`
unfoldable pub registry_image_name : Bytes → LanguageStack → Bytes → Bytes
unfolding name
registry_image_name registry stack version = registry ++ (b'/' ∷ (name stack ++ (b':' ∷ version)))

-- `version := opts.Version; if version == "" { version = "latest" }`
unfoldable pub image_version : Bytes → Bytes
image_version [] = codes "latest"
image_version (c ∷ s) = c ∷ s

-- The local image that the stack's Dockerfile starts from, if it is a ccbox image.
unfoldable pub dockerfile_from : LanguageStack → Option LanguageStack
dockerfile_from stack_base = none
dockerfile_from stack_go = none
dockerfile_from stack_rust = none
dockerfile_from stack_java = none
dockerfile_from stack_jvm = some stack_java
dockerfile_from stack_systems = some stack_cpp
dockerfile_from stack_data = some stack_python
dockerfile_from stack_ai = some stack_python
dockerfile_from stack_mobile = some stack_dart
dockerfile_from stack_game = some stack_cpp
dockerfile_from stack_fullstack = some stack_web
dockerfile_from _ = some stack_base

module _ (d : Daemon) (opts : ImageOptions) where
  open d use {World, exists, pull, tag, write_build_files, build}

  unfoldable pub pull_image : World → LanguageStack → World × Bool
  unfolding registry_image_name image_version
  pull_image w stack =
      let ref = registry_image_name opts.registry stack (image_version opts.version) in
      let (w1, pulled) = pull w ref in
      if pulled then tag w1 ref (get_image_name stack) else (w1, false)

  -- `!opts.NoPull && pullImage(...)`
  unfoldable pub try_pull : World → LanguageStack → World × Bool
  try_pull w stack = if opts.no_pull then (w, false) else pull_image w stack

  unfoldable pub build_image : World → LanguageStack → World × Bool
  build_image w stack =
      let (w1, written) = write_build_files w stack in
      if written then build w1 stack (get_image_name stack) else (w1, false)

  -- The block `if dep != ""`: `none` for the empty string.
  unfoldable pub ensure_base : World → Option LanguageStack → World × Option ImagesError
  ensure_base w none = (w, none)
  ensure_base w (some dep) =
      let w1 = (try_pull w dep).0 in
      let (w2, built) = build_image w1 dep in
      if exists w (get_image_name dep)
      then (w, none)
      else if exists w1 (get_image_name dep)
      then (w1, none)
      else if built
      then (w2, none)
      else (w2, some base_failed)

  unfoldable pub build_stack :
      LanguageStack → World × Option ImagesError → World × Option ImagesError
  build_stack stack (w, some e) = (w, some e)
  build_stack stack (w, none) =
      let (w1, built) = build_image w stack in if built then (w1, none) else (w1, some stack_failed)

  unfoldable pub ensure_images : World → LanguageStack → World × Option ImagesError
  ensure_images w stack =
      let (w1, pulled) = try_pull w stack in
      if exists w (get_image_name stack)
      then (w, none)
      else if pulled
      then (w1, none)
      else build_stack stack (ensure_base w1 (stack_dependency stack))
