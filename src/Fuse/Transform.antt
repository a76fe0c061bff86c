-- ===== src/Fuse/Transform.antt =====
-- internal/fuse/transform.go: host paths in JSON text to container paths, and back.
pub mod Progress
pub mod Paths
pub mod RoundTrip
pub mod Total
use ccbox.Common.{
  ℕ, Bool, true, false, not, ◌&&◌, ◌||◌, Option, none, some, List, [], ◌∷◌, ◌++◌, ltb, ◌==◌,
  if◌then◌else◌, length, drop, Bytes, codes, strip_prefix, next_byte, span, Outcome, done, panic,
  ◌>>=◌,
}
use ccbox.Fuse.Config.{
  PathMapping, DirMapping, to_lower_byte, is_alpha, is_space, second_is_colon, is_unc_path,
}
use ccbox.Fuse.DirMap.{apply_dir_map}
use ccbox.Fuse.Scan.{Hit, Matcher, Written, scan}

-- `extractJSONPath`: the path with forward slashes, and what stands behind it.
pub ends_path : ℕ → Bool
ends_path c = c == b'"' || c == b',' || c == b'}' || c == b']'

pub push : ℕ → Bytes × Bytes → Bytes × Bytes
push c (path, rest) = (c ∷ path, rest)

unfoldable pub extract_json_path : Bytes → Bytes × Bytes
unfolding ends_path push
extract_json_path [] = ([], [])
extract_json_path (c ∷ []) =
    if ends_path c then ([], c ∷ []) else if c == b'\\' then (b'/' ∷ [], []) else (c ∷ [], [])
extract_json_path (c ∷ d ∷ s) =
    let behind1 = extract_json_path (d ∷ s) in
    let behind2 = extract_json_path s in
    if ends_path c
    then ([], c ∷ d ∷ s)
    else if c == b'\\'
    then (if d == b'\\'
        then push b'/' behind2
        else if d == b'"'
        then push b'"' behind2
        else push b'/' behind1)
    else push c behind1

-- `s[n:]`, which panics where `s` is shorter.
pub slice_from : ℕ → Bytes → Outcome Bytes
slice_from n s = if ltb (length s) n then panic else done (drop n s)

-- `remainder == "" || remainder[0] == '/'`
pub at_segment : Bytes → Bool
at_segment [] = true
at_segment (c ∷ s) = c == b'/'

-- A mapping's text at the head of an extracted path, up to a segment's end.
pub replace_path : Bytes → Bytes → Bytes × Bytes → Hit
unfolding at_segment strip_prefix
replace_path from to (path, rest) = elim (strip_prefix from path) [
  | none ↦ none
  | some remainder ↦ if at_segment remainder then some (to ++ remainder, rest) else none
]

unfoldable pub or_else : Hit → Outcome Hit → Outcome Hit
or_else none later = later
or_else (some h) later = done (some h)

-- Case 1: a drive letter and a colon, with `after` behind the colon.
unfoldable pub match_drive : ℕ → Bytes → List PathMapping → Outcome Hit
unfolding slice_from replace_path or_else extract_json_path
match_drive drive after [] = done none
match_drive drive after (m ∷ ms) =
    let later = match_drive drive after ms in
    let here : Outcome Hit = (do
      from_path ← slice_from 2 m.from
      or_else (replace_path from_path m.to (extract_json_path after)) later) in
    if m.drive == drive && not m.is_unc && not m.is_wsl then here else later

unfoldable pub drive_hit : List PathMapping → Matcher
unfolding match_drive to_lower_byte is_alpha
drive_hit ms (a ∷ b ∷ x ∷ s) =
    if is_alpha a && b == b':' then match_drive (to_lower_byte a) (x ∷ s) ms else done none
drive_hit ms _ = done none

-- Case 2: a UNC path.
unfoldable pub match_unc : Bytes → List PathMapping → Hit
unfolding replace_path extract_json_path
match_unc s [] = none
match_unc s (m ∷ ms) =
    let later = match_unc s ms in
    if m.is_unc
    then elim (replace_path m.from m.to (extract_json_path s)) [ none ↦ later | some h ↦ some h ]
    else later

unfoldable pub unc_hit : List PathMapping → Bytes → Hit
unfolding match_unc
unc_hit ms (a ∷ b ∷ s) = if a == b'\\' && b == b'\\' then match_unc (a ∷ b ∷ s) ms else none
unc_hit ms _ = none

-- `next == 0 || next == '/' || next == '"' || next == ',' || next == '}'`
unfoldable pub ends_wsl : ℕ → Bool
ends_wsl c = c == 0 || c == b'/' || c == b'"' || c == b',' || c == b'}'

-- The bytes of a path that are copied behind the mapped part.
unfoldable pub in_path : ℕ → Bool
unfolding is_space
in_path c = not (c == b'"' || c == b',' || c == b'}' || c == b']' || is_space c)

-- Case 3: a WSL path.
unfoldable pub match_wsl : Bytes → List PathMapping → Hit
unfolding strip_prefix span in_path ends_wsl
match_wsl s [] = none
match_wsl s (m ∷ ms) =
    let later = match_wsl s ms in
    if m.is_wsl
    then elim (strip_prefix m.from s) [
      | none ↦ later
      | some after ↦
          let (copied, rest) = span in_path after in
          if ends_wsl (next_byte after) then some (m.to ++ copied, rest) else later
    ]
    else later

-- `/mnt/`, a letter, and at least one byte more.
unfoldable pub wsl_here : Bytes → Bool
unfolding strip_prefix is_alpha
wsl_here s = elim (strip_prefix (codes "/mnt/") s) [ some (d ∷ x ∷ t) ↦ is_alpha d | _ ↦ false ]

unfoldable pub wsl_hit : List PathMapping → Bytes → Hit
unfolding match_wsl wsl_here
wsl_hit ms s = if wsl_here s then match_wsl s ms else none

-- The three cases at one position, in order.
unfoldable pub container_hit : List PathMapping → Matcher
unfolding drive_hit unc_hit wsl_hit or_else
container_hit ms s = do
  first ← drive_hit ms s
  or_else first (or_else (unc_hit ms s) (done (wsl_hit ms s)))

-- Behind the loop: `nil` if nothing was rewritten, else the directory names.
unfoldable pub finish : Bool → List DirMapping → Written → Outcome (Option Bytes)
unfolding apply_dir_map
finish to_container dirs (out, any) =
    if any
    then (do
      mapped ← apply_dir_map out dirs to_container
      done (elim mapped [ none ↦ some out | some d ↦ some d ]))
    else done none

unfoldable pub transform_to_container :
    Bytes → List PathMapping → List DirMapping → Outcome (Option Bytes)
unfolding container_hit finish scan
transform_to_container [] ms dirs = done none
transform_to_container (c ∷ s) [] dirs = done none
transform_to_container (c ∷ s) (m ∷ ms) dirs =
    scan (length (c ∷ s)) (container_hit (m ∷ ms)) (c ∷ s) >>= finish true dirs

-- The host's text for a path: JSON-escaped backslashes for a drive or a UNC path.
unfoldable pub escape_seps : Bool → Bytes → Bytes
escape_seps back [] = []
escape_seps back (c ∷ s) =
    let rest = escape_seps back s in if back && c == b'/' then b'\\' ∷ b'\\' ∷ rest else c ∷ rest

-- `next == 0 || next == '/' || next == '"' || next == ',' || next == '}' || next == ']'`
unfoldable pub ends_to : ℕ → Bool
ends_to c = c == 0 || c == b'/' || c == b'"' || c == b',' || c == b'}' || c == b']'

-- `useBackslash || isUNCOrig`
unfoldable pub uses_backslash : Bytes → Bool
unfolding second_is_colon is_unc_path strip_prefix
uses_backslash from = second_is_colon from || is_unc_path from

unfoldable pub match_host : List PathMapping → Bytes → Hit
unfolding strip_prefix span in_path ends_to escape_seps uses_backslash
match_host [] s = none
match_host (m ∷ ms) s =
    let later = match_host ms s in
    elim (strip_prefix m.to s) [
      | none ↦ later
      | some after ↦
          let back = uses_backslash m.from in
          let (copied, rest) = span in_path after in
          if ends_to (next_byte after)
          then some (escape_seps back m.from ++ escape_seps back copied, rest)
          else later
    ]

unfoldable pub transform_to_host :
    Bytes → List PathMapping → List DirMapping → Outcome (Option Bytes)
unfolding match_host finish scan
transform_to_host [] ms dirs = done none
transform_to_host (c ∷ s) [] dirs = done none
transform_to_host (c ∷ s) (m ∷ ms) dirs =
    scan (length (c ∷ s)) (λ t. done (match_host (m ∷ ms) t)) (c ∷ s) >>= finish false dirs
