-- ===== src/Fuse/PathUtil.antt =====
-- internal/fuse/pathutil.go: the source path of a path inside the file system.
pub mod Segments
use ccbox.Common.{
  ℕ, Bool, true, false, ◌||◌, Option, none, some, List, [], ◌∷◌, ◌++◌, ◌==◌, if◌then◌else◌, length,
  Bytes, strip_prefix, next_byte, Outcome, done, ◌>>=◌,
}
use ccbox.Fuse.Config.{DirMapping}
use ccbox.Fuse.Scan.{Hit, scan}

-- Behind a slash: the first mapping whose container name is the segment.
unfoldable pub match_segment : List DirMapping → Bytes → Hit
unfolding strip_prefix
match_segment [] after = none
match_segment (m ∷ ms) after =
    let later = match_segment ms after in
    elim (strip_prefix m.container_name after) [
      | none ↦ later
      | some rest ↦
          if next_byte rest == 0 || next_byte rest == b'/'
          then some (b'/' ∷ m.native_name, rest)
          else later
    ]

unfoldable pub segment_hit : List DirMapping → Bytes → Hit
unfolding match_segment
segment_hit ms [] = none
segment_hit ms (c ∷ s) = if c == b'/' then match_segment ms s else none

unfoldable pub translate_path_segments : Bytes → List DirMapping → Outcome Bytes
unfolding scan segment_hit
translate_path_segments path [] = done path
translate_path_segments path (m ∷ ms) = do
  w ← scan (length path) (λ t. done (segment_hit (m ∷ ms) t)) path
  done w.0

unfoldable pub get_source_path : Bytes → Bytes → List DirMapping → Outcome Bytes
unfolding translate_path_segments
get_source_path source_dir [] ms = done source_dir
get_source_path source_dir (c ∷ path) [] = done (source_dir ++ c ∷ path)
get_source_path source_dir (c ∷ path) (m ∷ ms) =
    if c == b'/'
    then (do
      translated ← translate_path_segments (c ∷ path) (m ∷ ms)
      done (source_dir ++ translated))
    else done (source_dir ++ c ∷ path)
