-- ===== src/Fuse/DirMap/Total.antt =====
-- `ApplyDirMap` ends on every buffer, and `nil` stands for a buffer that stays as it is.
use ccbox.Common.{
  ℕ, refl, inl, inr, Bool, none, List, [], ◌∷◌, arith, length, Bytes, strip_prefix,
  length-strip_prefix, done, Option-cases,
}
use ccbox.Fuse.Config.{DirMapping}
use ccbox.Fuse.DirMap.{find_name, match_dir, dir_hit, changed, apply_dir_map}
use ccbox.Fuse.Scan.{scan}
use ccbox.Fuse.Scan.Laws.{Leaves, Leaves-Advances, Returns, scan-Returns}

match_dir-Leaves :
    (b : Bool) (ms : List DirMapping) (sep after : Bytes)
    → Leaves (length after) (match_dir b ms sep after)
unfolding match_dir
match_dir-Leaves b [] sep after = tt
match_dir-Leaves b (m ∷ ms) sep after = elim (Option-cases (strip_prefix (find_name b m) after)) [
  | inl e ↦ ground (arith, match_dir-Leaves b ms sep after)
  | inr (rest, e) ↦
      ground
        (arith, match_dir-Leaves b ms sep after, length-strip_prefix (find_name b m) after rest e)
]

dir_hit-Leaves :
    (b : Bool) (ms : List DirMapping) (c : ℕ) (s : Bytes) → Leaves (length s) (dir_hit b ms (c ∷ s))
unfolding dir_hit
dir_hit-Leaves b ms c [] = ground (arith, match_dir-Leaves b ms (c ∷ []) [])
dir_hit-Leaves b ms c (d ∷ s) =
    ground (arith, match_dir-Leaves b ms (c ∷ []) (d ∷ s), match_dir-Leaves b ms (c ∷ d ∷ []) s)

scan_dirs-Returns :
    (b : Bool) (ms : List DirMapping) (s : Bytes)
    → Returns (scan (length s) (λ t. done (dir_hit b ms t)) s)
scan_dirs-Returns b ms s =
    scan-Returns (length s) (λ t. done (dir_hit b ms t)) s
      (λ c t. Leaves-Advances c t (dir_hit b ms (c ∷ t)) (dir_hit-Leaves b ms c t)) (omega arith)

-- The replacement of directory names ends, without a panic, for all mappings and all buffers.
pub apply_dir_map-Returns :
    (buf : Bytes) (ms : List DirMapping) (to_container : Bool)
    → Returns (apply_dir_map buf ms to_container)
unfolding apply_dir_map
apply_dir_map-Returns buf [] b = (none, refl)
apply_dir_map-Returns [] (m ∷ ms) b = (none, refl)
apply_dir_map-Returns (c ∷ s) (m ∷ ms) b =
    let (w, e) = scan_dirs-Returns b (m ∷ ms) (c ∷ s) in (changed w, rw e)
