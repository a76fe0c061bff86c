-- ===== src/Fuse/Config/Load.antt =====
-- internal/fuse/config.go: `ParseConfig` and `NeedsTransform`. `to_lower` is `strings.ToLower`.
use ccbox.Common.{
  ℕ, ◌≡◌, refl, Bool, true, false, ◌||◌, Option, none, some, List, [], ◌∷◌, ◌==◌, if◌then◌else◌,
  Bytes, codes, equal, ◌&&◌,
}
use ccbox.Fuse.Config.{Config, PathMapping, parse_path_map, parse_dir_map, parse_extensions}

all_slashes : Bytes → Bool
all_slashes [] = true
all_slashes (c ∷ s) = c == b'/' && all_slashes s

-- `strings.TrimRight(sourceDir, "/")`
trim_slashes : Bytes → Bytes
unfolding all_slashes
trim_slashes [] = []
trim_slashes (c ∷ s) = if all_slashes (c ∷ s) then [] else c ∷ trim_slashes s

unfoldable pub parse_config : Bytes → Bytes → Bytes → Bytes → ℕ → Config
unfolding trim_slashes
parse_config source_dir path_map dir_map extensions trace_level = record {
  source_dir = trim_slashes source_dir;
  path_mappings = parse_path_map path_map;
  dir_mappings = parse_dir_map dir_map;
  extensions = parse_extensions extensions;
  trace_level = trace_level;
}

-- `path[strings.LastIndex(path, "."):]`
from_last_dot : Bytes → Option Bytes
from_last_dot [] = none
from_last_dot (c ∷ s) = elim (from_last_dot s) [
  | some ext ↦ some ext
  | none ↦ if c == b'.' then some (c ∷ s) else none
]

has_extension : Bytes → List Bytes → Bool
unfolding equal
has_extension ext [] = false
has_extension ext (e ∷ es) = equal ext e || has_extension ext es

no_mappings : List PathMapping → Bool
no_mappings [] = true
no_mappings (m ∷ ms) = false

unfoldable pub needs_transform : (Bytes → Bytes) → Config → Bytes → Bool
unfolding from_last_dot has_extension no_mappings
needs_transform to_lower c path =
    if no_mappings c.path_mappings then false else elim (from_last_dot path) [
      | none ↦ false
      | some ext ↦ has_extension (to_lower ext) c.extensions
    ]

needs_transform_runs :
    needs_transform
      (λ s. s)
      (parse_config (codes "/src/") (codes "C:/x:/c") [] [] 0)
      (codes "/a.b/c.json")
    ≡ true
unfolding needs_transform parse_config parse_path_map parse_extensions
needs_transform_runs = refl
