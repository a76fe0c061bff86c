-- ===== src/Images/Examples.antt =====
-- The theorems on the images with a daemon whose state is the list of its images.
use ccbox.Common.{
  ◌≡◌, refl, Bool, true, false, ◌||◌, Option, none, some, List, [], ◌∷◌, Bytes, codes, equal, arith,
}
use ccbox.Stacks.Defs.{
  LanguageStack, stack_base, stack_data, stack_python, stack_go, stack_dependency,
}
use ccbox.Images.Defs.{
  Daemon, ImageOptions, base_failed, get_image_name, dockerfile_from, ensure_images, ensure_base,
  build_stack, build_image, try_pull,
}
use ccbox.Images.Ensure.{TagsAndBuilds, NeedsFrom, ensure_images-exists, ensure_images_two_levels}

pub has_image : List Bytes → Bytes → Bool
unfolding equal
has_image [] ref = false
has_image (x ∷ xs) ref = equal x ref || has_image xs ref

-- The image that the Dockerfile starts from is there, or there is none.
pub has_from : List Bytes → Option LanguageStack → Bool
has_from w none = true
has_from w (some p) = has_image w (get_image_name p)

equal_self : (x : Bytes) → equal x x ≡ true
unfolding equal
equal_self [] = refl
equal_self (c ∷ x) = ground (arith, equal_self x)

has_image_first : (w : List Bytes) (x : Bytes) → has_image (x ∷ w) x ≡ true
unfolding has_image
has_image_first w x = rw (equal_self x) refl

abbrev pub offline : ImageOptions
offline = record { no_pull = true; version = []; registry = codes "ghcr.io/sungur/ccbox" }

-- What a build leaves.
pub built_if : Bool → List Bytes → Bytes → List Bytes × Bool
built_if true w image = (image ∷ w, true)
built_if false w image = (w, false)

built_if-has :
    (b : Bool) (w : List Bytes) (image : Bytes)
    → (built_if b w image).1 ≡ true
    → has_image (built_if b w image).0 image ≡ true
unfolding built_if
built_if-has true w image h = has_image_first w image
built_if-has false w image h = absurd (ground (arith, h))

-- No registry; a build needs the image that it starts from.
abbrev pub local : Daemon
local = record {
  World = List Bytes;
  exists = has_image;
  pull = λ w ref. (w, false);
  tag = λ w ref image. (image ∷ w, true);
  write_build_files = λ w s. (w, true);
  build = λ w s image. built_if (has_from w (dockerfile_from s)) w image;
}

pub local-TagsAndBuilds : TagsAndBuilds local
local-TagsAndBuilds = record {
  tagged = λ w ref image h. has_image_first w image;
  built = λ w s image h. built_if-has (has_from w (dockerfile_from s)) w image h;
}

local-NeedsFrom : NeedsFrom local
unfolding has_from built_if
local-NeedsFrom w s p image f e = rw (f, e) refl

ensure_images-exists_example :
    has_image (ensure_images local offline [] stack_go).0 (get_image_name stack_go) ≡ true
unfolding ensure_images ensure_base build_stack build_image try_pull stack_dependency has_from
    dockerfile_from has_image built_if
ensure_images-exists_example =
    ensure_images-exists local offline local-TagsAndBuilds [] stack_go refl

ensure_images_two_levels_example :
    ensure_images local offline [] stack_data ≡ ([], some base_failed)
unfolding stack_dependency has_image
ensure_images_two_levels_example =
    ensure_images_two_levels local offline local-NeedsFrom refl [] stack_data stack_python
      stack_base refl refl refl refl refl refl
