-- ===== src/Fuse/PathUtil/Segments.antt =====
-- Where the mappings' container names and the segments have no slash and no zero byte, the translation
-- of a path replaces whole segments.
use ccbox.Common.{
  ℕ, zero, suc, ◌≤◌, ◌≡◌, refl, ap, inl, inr, Bool, true, false, ◌||◌, Option, none, some, List, [],
  ◌∷◌, ◌++◌, map, arith, length, length-append, All, Bytes, equal, strip_prefix, next_byte, ◌==◌,
  if◌then◌else◌, done, Option-cases,
}
use ccbox.Fuse.Config.{DirMapping}
use ccbox.Fuse.PathUtil.{match_segment, segment_hit, translate_path_segments}
use ccbox.Fuse.Scan.{scan}

-- A byte of a segment's name.
abbrev pub IsPlain : ℕ → Type 0
IsPlain c = ((c == 0) ≡ false) × ((c == b'/') ≡ false)

abbrev pub IsName : Bytes → Type 0
IsName = All IsPlain

-- `/` and a name for each segment.
abbrev pub join : List Bytes → Bytes
join [] = []
join (w ∷ ws) = b'/' ∷ (w ++ join ws)

-- The native name of the first mapping for a segment.
abbrev pub find_native : List DirMapping → Bytes → Option Bytes
find_native [] w = none
find_native (m ∷ ms) w = if equal m.container_name w then some m.native_name else find_native ms w

abbrev pub to_native : List DirMapping → Bytes → Bytes
to_native ms w = elim (find_native ms w) [ none ↦ w | some n ↦ n ]

boundary : Bytes → Bool
boundary s = next_byte s == 0 || next_byte s == b'/'

at_boundary : Option Bytes → Option Bytes
unfolding boundary
at_boundary none = none
at_boundary (some r) = if boundary r then some r else none

strip_prefix_name :
    (name w rest : Bytes)
    → IsName name
    → IsName w
    → boundary rest ≡ true
    → at_boundary (strip_prefix name (w ++ rest)) ≡ (if equal name w then some rest else none)
unfolding strip_prefix at_boundary equal
strip_prefix_name [] [] rest hn hw b = rw b
strip_prefix_name [] (c ∷ w) rest hn hw b = ground arith
strip_prefix_name (x ∷ name) [] [] hn hw b = refl
strip_prefix_name (x ∷ name) [] (c ∷ rest) hn hw b = ground arith
strip_prefix_name (x ∷ name) (c ∷ w) rest hn hw b =
    ground (arith, strip_prefix_name name w rest hn.1 hw.1 b)

match_segment_name :
    (ms : List DirMapping) (w rest : Bytes)
    → All (λ m. IsName m.container_name) ms
    → IsName w
    → boundary rest ≡ true
    → match_segment ms (w ++ rest)
      ≡ elim (find_native ms w) [ none ↦ none | some n ↦ some (b'/' ∷ n, rest) ]
unfolding match_segment at_boundary
match_segment_name [] w rest hm hw b = refl
match_segment_name (m ∷ ms) w rest hm hw b = ground (
  arith,
  strip_prefix_name m.container_name w rest hm.0 hw b,
  match_segment_name ms w rest hm.1 hw b,
)

-- The loop over `s` writes `out`, with one flag or the other.
Writes : List DirMapping → ℕ → Bytes → Bytes → Type 0
Writes ms fuel s out = (any : Bool) × (scan fuel (λ t. done (segment_hit ms t)) s ≡ done (out, any))

module _ (ms : List DirMapping) where
  scan_name :
      (w rest out : Bytes) (fuel : ℕ)
      → IsName w
      → length (w ++ rest) ≤ fuel
      → ((f : ℕ) → length rest ≤ f → Writes ms f rest out)
      → Writes ms fuel (w ++ rest) (w ++ out)
  unfolding Writes scan segment_hit
  scan_name [] rest out fuel hw h k = k fuel h
  scan_name (c ∷ w) rest out zero hw h k = absurd (omega arith)
  scan_name (c ∷ w) rest out (suc fuel) hw h k =
      let (any, e) = scan_name w rest out fuel hw.1 (omega arith) k in (any, rw (hw.0.1, e))

  join-boundary : (ws : List Bytes) → boundary (join ws) ≡ true
  unfolding boundary
  join-boundary [] = refl
  join-boundary (w ∷ ws) = refl

  scan-join :
      (ws : List Bytes) (fuel : ℕ)
      → All (λ m. IsName m.container_name) ms
      → All IsName ws
      → length (join ws) ≤ fuel
      → Writes ms fuel (join ws) (join (map (to_native ms) ws))
  unfolding Writes scan segment_hit
  scan-join [] fuel hm hw h = (false, refl)
  scan-join (w ∷ ws) zero hm hw h = absurd (omega arith)
  scan-join (w ∷ ws) (suc fuel) hm hw h =
      let at = match_segment_name ms w (join ws) hm hw.0 (join-boundary ws) in
      let later = λ (f : ℕ) (k : length (join ws) ≤ f). scan-join ws f hm hw.1 k in
      elim (Option-cases (find_native ms w)) [
        | inl e ↦
            let (any, r) =
              scan_name w (join ws) (join (map (to_native ms) ws)) fuel hw.0 (omega arith) later in
            (any, ground (arith, at, e, r))
        | inr (n, e) ↦
            let (any, r) = later fuel (omega (arith, length-append w (join ws))) in
            (true, ground (arith, at, e, r))
      ]

pub map-to_native_nil : (ws : List Bytes) → ws ≡ map (to_native []) ws
map-to_native_nil [] = refl
map-to_native_nil (w ∷ ws) = ap (◌∷◌ w) (map-to_native_nil ws)

-- The translation of a path replaces each segment that is a mapping's container name by the native
-- name of the first such mapping, and changes nothing else.
pub translate_path_segments-join :
    (ms : List DirMapping) (ws : List Bytes)
    → All (λ m. IsName m.container_name) ms
    → All IsName ws
    → translate_path_segments (join ws) ms ≡ done (join (map (to_native ms) ws))
unfolding translate_path_segments Writes
translate_path_segments-join [] ws hm hw = ap done (ap join (map-to_native_nil ws))
translate_path_segments-join (m ∷ ms) ws hm hw =
    let (any, e) = scan-join (m ∷ ms) ws (length (join ws)) hm hw (omega arith) in rw e
