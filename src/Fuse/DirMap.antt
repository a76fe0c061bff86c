-- ===== src/Fuse/DirMap.antt =====
-- internal/fuse/dirmap.go: directory names replaced in a buffer, behind a separator or a quote.
pub mod Total
use ccbox.Common.{
  ℕ, Bool, true, false, ◌||◌, Option, none, some, List, [], ◌∷◌, ◌++◌, ◌==◌, if◌then◌else◌, length,
  Bytes, strip_prefix, next_byte, Outcome, done, ◌>>=◌,
}
use ccbox.Fuse.Config.{DirMapping}
use ccbox.Fuse.Scan.{Hit, Written, scan}

-- `find` and `repl` for the direction: native to container, or back.
abbrev pub find_name : Bool → DirMapping → Bytes
find_name to_container m = if to_container then m.native_name else m.container_name

abbrev pub repl_name : Bool → DirMapping → Bytes
repl_name to_container m = if to_container then m.container_name else m.native_name

-- The byte behind a name that ends it; 0 stands for the end of the buffer, and for a zero byte.
unfoldable pub ends_name : ℕ → Bool
ends_name c = c == 0 || c == b'/' || c == b'\\' || c == b'"' || c == b',' || c == b'}' || c == b']'

-- The first mapping whose name stands behind the separator `sep`, up to a boundary.
unfoldable pub match_dir : Bool → List DirMapping → Bytes → Bytes → Hit
unfolding strip_prefix
match_dir to_container [] sep after = none
match_dir to_container (m ∷ ms) sep after =
    let later = match_dir to_container ms sep after in
    elim (strip_prefix (find_name to_container m) after) [
      | none ↦ later
      | some rest ↦
          if ends_name (next_byte rest) then some (sep ++ repl_name to_container m, rest) else later
    ]

-- What happens at one position: a separator is `/`, `"` or a doubled backslash.
unfoldable pub dir_hit : Bool → List DirMapping → Bytes → Hit
unfolding match_dir ends_name
dir_hit to_container ms [] = none
dir_hit to_container ms (c ∷ []) =
    if c == b'/' || c == b'"' then match_dir to_container ms (c ∷ []) [] else none
dir_hit to_container ms (c ∷ d ∷ s) =
    if c == b'/' || c == b'"'
    then match_dir to_container ms (c ∷ []) (d ∷ s)
    else if c == b'\\'
    then (if d == b'\\' then match_dir to_container ms (c ∷ d ∷ []) s else none)
    else none

-- `none` is the `nil` that says that nothing was changed.
changed : Written → Option Bytes
changed (out, any) = if any then some out else none

unfoldable pub apply_dir_map : Bytes → List DirMapping → Bool → Outcome (Option Bytes)
unfolding scan dir_hit changed
apply_dir_map buf [] to_container = done none
apply_dir_map [] (m ∷ ms) to_container = done none
apply_dir_map (c ∷ s) (m ∷ ms) to_container = do
  w ← scan (length (c ∷ s)) (λ t. done (dir_hit to_container (m ∷ ms) t)) (c ∷ s)
  done (changed w)
