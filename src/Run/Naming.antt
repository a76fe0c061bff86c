-- ===== src/Run/Naming.antt =====
-- internal/config/config.go: GetContainerName. The Unicode lower case and the random suffix are parameters.
use ccbox.Common.{
  ℕ, Bool, true, false, ◌&&◌, ◌||◌, ◌==◌, ltb, leb, Option, none, some, List, [], ◌∷◌, ◌++◌, Bytes,
  codes, length, if◌then◌else◌,
}
use ccbox.Run.Mounts.{take_bytes}
pub mod Bounds

abbrev pub max_project_name_length : ℕ
max_project_name_length = 50

-- `[a-z0-9_-]`
unfoldable pub is_safe : ℕ → Bool
is_safe c = (leb b'a' c && leb c b'z') || (leb b'0' c && leb c b'9') || c == b'_' || c == b'-'

-- Each byte of a character that is not allowed gives a hyphen; the runs are collapsed next.
unfoldable pub replace_unsafe : Bytes → Bytes
unfolding is_safe
replace_unsafe [] = []
replace_unsafe (c ∷ s) = (if is_safe c then c else b'-') ∷ replace_unsafe s

unfoldable pub begins_with_hyphen : Bytes → Bool
begins_with_hyphen [] = false
begins_with_hyphen (c ∷ s) = c == b'-'

-- `-{2,}` to one hyphen: the last of a run is kept.
unfoldable pub collapse_hyphens : Bytes → Bytes
unfolding begins_with_hyphen
collapse_hyphens [] = []
collapse_hyphens (c ∷ s) =
    let rest = collapse_hyphens s in if c == b'-' && begins_with_hyphen s then rest else c ∷ rest

unfoldable pub trim_left_hyphens : Bytes → Bytes
trim_left_hyphens [] = []
trim_left_hyphens (c ∷ s) = let rest = trim_left_hyphens s in if c == b'-' then rest else c ∷ s

unfoldable pub cons_trimmed : ℕ → Bytes → Bytes
cons_trimmed c [] = if c == b'-' then [] else c ∷ []
cons_trimmed c (d ∷ s) = c ∷ d ∷ s

unfoldable pub trim_right_hyphens : Bytes → Bytes
unfolding cons_trimmed
trim_right_hyphens [] = []
trim_right_hyphens (c ∷ s) = cons_trimmed c (trim_right_hyphens s)

unfoldable pub shorten : Bytes → Bytes
unfolding trim_right_hyphens take_bytes
shorten s =
    if ltb max_project_name_length (length s)
    then trim_right_hyphens (take_bytes max_project_name_length s)
    else s

unfoldable pub or_project : Bytes → Bytes
or_project [] = codes "project"
or_project (c ∷ s) = c ∷ s

unfoldable pub safe_name : (Bytes → Bytes) → Bytes → Bytes
unfolding replace_unsafe collapse_hyphens trim_left_hyphens trim_right_hyphens shorten or_project
safe_name to_lower project_name = or_project (
    shorten (
      trim_right_hyphens
        (trim_left_hyphens (collapse_hyphens (replace_unsafe (to_lower project_name))))))

-- With the random suffix where the name is to be unique.
unfoldable pub get_container_name : (Bytes → Bytes) → Bytes → Option Bytes → Bytes
unfolding safe_name
get_container_name to_lower project_name none = codes "ccbox_" ++ safe_name to_lower project_name
get_container_name to_lower project_name (some suffix) =
    codes "ccbox_" ++ safe_name to_lower project_name ++ b'_' ∷ suffix
