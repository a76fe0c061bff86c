-- ===== src/Paths/Defs.antt =====
-- internal/paths/paths.go: the recognition of Windows, UNC and WSL paths, the normalisation of their
-- separators and their conversion for a volume mount. A regular expression is written out as the
-- test that it makes; `.` does not match a line feed, and a negated class matches any byte but those
-- it names.
use ccbox.Common.{
  ℕ, zero, suc, ◌+◌, ◌-◌, ◌⊎◌, inl, inr, Bool, true, false, not, ◌&&◌, ◌||◌, Option, none, some, [],
  ◌∷◌, ◌++◌, map, ltb, leb, ◌==◌, if◌then◌else◌, length, Bytes, codes, strip_prefix, span,
}

-- `[A-Za-z]`, `[a-z]`, `[/\\]`
unfoldable pub is_letter : ℕ → Bool
is_letter c = (leb b'A' c && leb c b'Z') || (leb b'a' c && leb c b'z')

unfoldable pub is_lower : ℕ → Bool
is_lower c = leb b'a' c && leb c b'z'

unfoldable pub is_separator : ℕ → Bool
is_separator c = c == b'/' || c == b'\\'

-- `strings.ToUpper` of one letter.
unfoldable pub to_upper : ℕ → ℕ
unfolding is_lower
to_upper c = if is_lower c then c - 32 else c

-- `strings.Contains`
unfoldable pub contains_bytes : Bytes → Bytes → Bool
contains_bytes p [] = elim (strip_prefix p []) [ none ↦ false | some rest ↦ true ]
contains_bytes p (c ∷ s) = elim (strip_prefix p (c ∷ s)) [
  | none ↦ contains_bytes p s
  | some rest ↦ true
]

-- `strings.ReplaceAll(path, "\\", "/")`
unfoldable pub to_slash : ℕ → ℕ
to_slash c = if c == b'\\' then b'/' else c

unfoldable pub is_windows_path : Bytes → Bool
unfolding is_letter is_separator
is_windows_path (d ∷ c ∷ s ∷ rest) = is_letter d && c == b':' && is_separator s
is_windows_path _ = false

-- `[^/\\]+[/\\][^/\\]+`
unc_names : Bytes × Bytes → Bool
unfolding is_separator
unc_names ([], after) = false
unc_names (c ∷ server, s ∷ d ∷ share) = not (is_separator d)
unc_names (c ∷ server, _) = false

unfoldable pub is_unc_path : Bytes → Bool
unfolding unc_names is_separator
is_unc_path (a ∷ b ∷ rest) =
    is_separator a && a == b && unc_names (span (λ c. not (is_separator c)) rest)
is_unc_path _ = false

-- One `strings.ReplaceAll(normalized, "//", "/")`.
unfoldable pub replace_slashes : Bytes → Bytes
replace_slashes [] = []
replace_slashes (a ∷ []) = a ∷ []
replace_slashes (a ∷ b ∷ s) =
    let paired = replace_slashes s in
    let single = replace_slashes (b ∷ s) in
    if a == b'/' && b == b'/' then b'/' ∷ paired else a ∷ single

-- `strings.Contains(normalized, "//")`
unfoldable pub has_double : Bytes → Bool
has_double [] = false
has_double (a ∷ []) = false
has_double (a ∷ b ∷ s) = (a == b'/' && b == b'/') || has_double (b ∷ s)

-- The loop, on fuel.
unfoldable pub collapse : ℕ → Bytes → Bytes
unfolding replace_slashes has_double
collapse zero s = s
collapse (suc n) s = if has_double s then collapse n (replace_slashes s) else s

all_slashes : Bytes → Bool
all_slashes [] = true
all_slashes (c ∷ s) = c == b'/' && all_slashes s

-- `strings.TrimRight(normalized, "/")`
unfoldable pub trim_slashes : Bytes → Bytes
unfolding all_slashes
trim_slashes [] = []
trim_slashes (c ∷ s) = if all_slashes (c ∷ s) then [] else c ∷ trim_slashes s

unfoldable pub normalize_path_separators : Bytes → Bytes
normalize_path_separators path =
    let normalized = map to_slash path in
    let normalized = collapse (length normalized) normalized in
    if ltb 1 (length normalized) then trim_slashes normalized else normalized

-- `(.*)$`
unfoldable pub one_line : Bytes → Bool
one_line [] = true
one_line (c ∷ s) = not (c == b'\n') && one_line s

-- `normalizedRest == "" || normalizedRest == "/"`
unfoldable pub is_root : Bytes → Bool
is_root [] = true
is_root (c ∷ []) = c == b'/'
is_root (c ∷ d ∷ s) = false

-- `[/\\]*`
unfoldable pub skip_separators : Bytes → Bytes
unfolding is_separator
skip_separators [] = []
skip_separators (c ∷ s) = let rest = skip_separators s in if is_separator c then rest else c ∷ s

unfoldable pub windows_path : ℕ → Bytes → Bytes
windows_path drive rest = if is_root rest then drive ∷ codes ":/" else drive ∷ (codes ":/" ++ rest)

unfoldable pub windows_to_docker_path : Bytes → Bytes
windows_to_docker_path (d ∷ c ∷ s) =
    if is_letter d && c == b':' && one_line (skip_separators s)
    then windows_path (to_upper d) (normalize_path_separators (skip_separators s))
    else d ∷ c ∷ s
windows_to_docker_path path = path

unfoldable pub mount_path : ℕ → Bytes → Bytes
mount_path drive rest = if is_root rest then b'/' ∷ drive ∷ [] else b'/' ∷ drive ∷ b'/' ∷ rest

-- `wslMountRe`: the drive letter and what follows `/mnt/c/`.
unfoldable pub match_mount : Bytes → Option (ℕ × Bytes)
match_mount path = elim (strip_prefix (codes "/mnt/") path) [
  | some (d ∷ []) ↦ if is_lower d then some (d, []) else none
  | some (d ∷ c ∷ rest) ↦ if is_lower d && c == b'/' && one_line rest then some (d, rest) else none
  | _ ↦ none
]

unfoldable pub wsl_to_docker_path : Bytes → Bytes
wsl_to_docker_path path = elim (match_mount path) [
  | none ↦ path
  | some (d, rest) ↦ mount_path (to_upper d) (normalize_path_separators rest)
]

pub data PathError : Type 0 where
  traversal : Bytes → Bytes → PathError
  null_byte : Bytes → ℕ → PathError

-- `strings.IndexRune(resolved, 0)`
find_null : ℕ → Bytes → Option ℕ
find_null i [] = none
find_null i (c ∷ s) = if c == 0 then some i else find_null (i + 1) s

unfoldable pub validate_docker_path : Bytes → Bytes → Option PathError
unfolding find_null
validate_docker_path original resolved =
    if contains_bytes (codes "..") resolved
    then some (traversal original resolved)
    else elim (find_null 0 resolved) [ none ↦ none | some i ↦ some (null_byte original i) ]

unfoldable pub validated : Bytes → Bytes → PathError ⊎ Bytes
validated original resolved = elim (validate_docker_path original resolved) [
  | none ↦ inr resolved
  | some e ↦ inl e
]

-- `strings.HasPrefix(pathStr, "/mnt/") && len(pathStr) >= 6` and the test of what follows.
unfoldable pub is_wsl_path : Bytes → Bool
unfolding is_lower
is_wsl_path path = elim (strip_prefix (codes "/mnt/") path) [
  | some (d ∷ []) ↦ is_lower d
  | some (d ∷ c ∷ rest) ↦ is_lower d && c == b'/'
  | _ ↦ false
]

unfoldable pub resolve_for_docker : Bytes → PathError ⊎ Bytes
unfolding validated
resolve_for_docker path =
    let path_str = map to_slash path in
    if is_unc_path path_str
    then validated path path_str
    else if is_windows_path path_str
    then validated path (windows_to_docker_path path_str)
    else if is_wsl_path path_str
    then validated path (wsl_to_docker_path path_str)
    else validated path path_str

unfoldable pub drive_letter_to_container_path : Bytes → Bytes
unfolding is_letter
drive_letter_to_container_path (d ∷ c ∷ s) =
    if is_letter d && c == b':' then b'/' ∷ d ∷ s else d ∷ c ∷ s
drive_letter_to_container_path path = path
