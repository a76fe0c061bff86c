-- ===== src/Fuse/QuickScan.antt =====
-- internal/fuse/quickscan.go: the search of a file's first 64 KB for anything that the rewriter could
-- match. `content` is what the read of those bytes gives.
pub mod Sound
use ccbox.Common.{
  ℕ, ◌+◌, ◌-◌, ◌%◌, Bool, true, false, not, ◌&&◌, ◌||◌, List, [], ◌∷◌, leb, ◌==◌, if◌then◌else◌,
  length, Bytes, codes,
}
use Prim.Native.Nat.{◌/◌}
use ccbox.Fuse.Config.{PathMapping, DirMapping}
use ccbox.Paths.Defs.{contains_bytes}

abbrev pub quick_scan_size : ℕ
quick_scan_size = 65536

-- `m.Drive & 0xDF` and `m.Drive | 0x20`
unfoldable pub clear_case : ℕ → ℕ
clear_case d = if d / 32 % 2 == 1 then d - 32 else d

unfoldable pub set_case : ℕ → ℕ
set_case d = if d / 32 % 2 == 1 then d else d + 32

-- The loop over the positions before the last.
unfoldable pub has_drive : ℕ → ℕ → Bytes → Bool
has_drive upper lower [] = false
has_drive upper lower (a ∷ []) = false
has_drive upper lower (a ∷ b ∷ s) =
    ((a == upper || a == lower) && b == b':') || has_drive upper lower (b ∷ s)

unfoldable pub scan_mapping : Bytes → PathMapping → Bool
scan_mapping content m =
    (not (m.drive == 0)
      && not m.is_unc
      && not m.is_wsl
      && has_drive (clear_case m.drive) (set_case m.drive) content)
    || (leb 1 (length m.to) && leb (length m.to) (length content) && contains_bytes m.to content)
    || (m.is_wsl && leb 5 (length content) && contains_bytes (codes "/mnt/") content)
    || (m.is_unc && leb 2 (length content) && contains_bytes (codes "\\\\") content)

unfoldable pub scan_mappings : Bytes → List PathMapping → Bool
scan_mappings content [] = false
scan_mappings content (m ∷ ms) = scan_mapping content m || scan_mappings content ms

unfoldable pub scan_dirs : Bytes → List DirMapping → Bool
scan_dirs content [] = false
scan_dirs content (d ∷ ds) =
    contains_bytes d.native_name content
    || contains_bytes d.container_name content
    || scan_dirs content ds

some_bytes : Bytes → Bool
some_bytes [] = false
some_bytes (c ∷ s) = true

-- `n > 0` and the two searches.
unfoldable pub quick_scan_has_mappings : Bytes → List PathMapping → List DirMapping → Bool
unfolding some_bytes
quick_scan_has_mappings content ms ds =
    some_bytes content && (scan_mappings content ms || scan_dirs content ds)
