-- ===== src/Fuse/Transform/Progress.antt =====
-- Both rewriters end: every rewrite reads at least one byte, and no slice is out of range.
use ccbox.Common.{
  ℕ, suc, ◌≤◌, ◌≡◌, ◌≢◌, refl, ◌⊎◌, inl, inr, Bool, true, none, some, List, [], ◌∷◌, arith, length,
  drop, All, Bytes, strip_prefix, length-strip_prefix, span, length-span, Outcome, done, ◌==◌,
  ==_iff, not, ◌&&◌, Bool-cases, Option-cases,
}
use ccbox.Fuse.Config.{PathMapping, to_lower_byte, is_alpha}
use ccbox.Fuse.Scan.{Hit}
use ccbox.Fuse.Scan.Laws.{Leaves}
use ccbox.Fuse.Transform.{
  extract_json_path, slice_from, replace_path, or_else, match_drive, drive_hit, match_unc, unc_hit,
  in_path, match_wsl, wsl_here, wsl_hit, container_hit, match_host,
}

-- A mapping whose text the code may slice behind a drive letter.
abbrev pub Sliceable : PathMapping → Type 0
Sliceable m = (2 ≤ length m.from) ⊎ (m.drive ≡ 0) ⊎ (m.is_wsl ≡ true)

-- A mapping whose container path is not empty.
abbrev pub HasTarget : PathMapping → Type 0
HasTarget m = 1 ≤ length m.to

to_lower_byte-alpha : (c : ℕ) → is_alpha c ≡ true → to_lower_byte c ≢ 0
unfolding to_lower_byte is_alpha
to_lower_byte-alpha c h = ground arith

wsl_here-in_path : (c : ℕ) (s : Bytes) → wsl_here (c ∷ s) ≡ true → in_path c ≡ true
unfolding wsl_here strip_prefix in_path
wsl_here-in_path c s h = ground arith

length-extract_json_path : (s : Bytes) → length (extract_json_path s).1 ≤ length s
unfolding extract_json_path
length-extract_json_path [] = omega arith
length-extract_json_path (c ∷ []) = ground arith
length-extract_json_path (c ∷ d ∷ s) =
    ground (arith, length-extract_json_path (d ∷ s), length-extract_json_path s)

replace_path-Leaves :
    (n : ℕ) (from to : Bytes) (p : Bytes × Bytes)
    → length p.1 ≤ n
    → Leaves n (replace_path from to p)
unfolding replace_path
replace_path-Leaves n from to (path, rest) h = ground arith

pub match_host-Leaves :
    (n : ℕ) (ms : List PathMapping) (s : Bytes)
    → All HasTarget ms
    → length s ≤ suc n
    → Leaves n (match_host ms s)
unfolding match_host
match_host-Leaves n [] s h k = tt
match_host-Leaves n (m ∷ ms) s h k = elim (Option-cases (strip_prefix m.to s)) [
  | inl e ↦ ground (arith, match_host-Leaves n ms s h.1 k)
  | inr (after, e) ↦ ground (
    arith,
    match_host-Leaves n ms s h.1 k,
    length-span in_path after,
    length-strip_prefix m.to s after e,
  )
]

match_unc-Leaves :
    (n : ℕ) (s : Bytes) (ms : List PathMapping)
    → length (extract_json_path s).1 ≤ n
    → Leaves n (match_unc s ms)
unfolding match_unc
match_unc-Leaves n s [] h = tt
match_unc-Leaves n s (m ∷ ms) h =
    ground
      (arith, match_unc-Leaves n s ms h, replace_path-Leaves n m.from m.to (extract_json_path s) h)

extract_json_path-backslash :
    (c d : ℕ) (s : Bytes) → c ≡ b'\\' → length (extract_json_path (c ∷ d ∷ s)).1 ≤ length (d ∷ s)
unfolding extract_json_path
extract_json_path-backslash c d s h =
    ground (arith, length-extract_json_path (d ∷ s), length-extract_json_path s)

unc_hit-Leaves :
    (c : ℕ) (s : Bytes) (ms : List PathMapping) → Leaves (length s) (unc_hit ms (c ∷ s))
unfolding unc_hit
unc_hit-Leaves c [] ms = tt
unc_hit-Leaves c (d ∷ s) ms = elim (Bool-cases (c == b'\\')) [
  | inl e ↦ ground (
    arith,
    match_unc-Leaves (length (d ∷ s)) (c ∷ d ∷ s) ms
        (extract_json_path-backslash c d s ((==_iff c b'\\').0 e)),
  )
  | inr e ↦ ground arith
]

slice_from-Sliceable :
    (m : PathMapping) → 2 ≤ length m.from → slice_from 2 m.from ≡ done (drop 2 m.from)
unfolding slice_from
slice_from-Sliceable m h = ground arith

or_else-done :
    (n : ℕ) (o : Hit) {later : Outcome Hit}
    → Leaves n o
    → (h : Hit) × (later ≡ done h) × Leaves n h
    → (h : Hit) × (or_else o later ≡ done h) × Leaves n h
unfolding or_else
or_else-done n none l w = w
or_else-done n (some h) l w = (some h, refl, l)

match_drive-Leaves :
    (n drive : ℕ) (after : Bytes) (ms : List PathMapping)
    → drive ≢ 0
    → All Sliceable ms
    → length after ≤ n
    → (h : Hit) × (match_drive drive after ms ≡ done h) × Leaves n h
unfolding match_drive
match_drive-Leaves n drive after [] ne w h = (none, refl, tt)
match_drive-Leaves n drive after (m ∷ ms) ne w h =
    elim (Bool-cases (m.drive == drive && not m.is_unc && not m.is_wsl)) [
      | inl e ↦
          rw (e, slice_from-Sliceable m (ground arith))
            (or_else-done n _
              (replace_path-Leaves n (drop 2 m.from) m.to (extract_json_path after)
                (omega (arith, length-extract_json_path after)))
              (match_drive-Leaves n drive after ms ne w.1 h))
      | inr e ↦ rw e (match_drive-Leaves n drive after ms ne w.1 h)
    ]

drive_hit-Leaves :
    (c : ℕ) (s : Bytes) (ms : List PathMapping)
    → All Sliceable ms
    → (h : Hit) × (drive_hit ms (c ∷ s) ≡ done h) × Leaves (length s) h
unfolding drive_hit
drive_hit-Leaves c [] ms w = (none, refl, tt)
drive_hit-Leaves c (d ∷ []) ms w = (none, refl, tt)
drive_hit-Leaves c (d ∷ x ∷ s) ms w = elim (Bool-cases (is_alpha c && d == b':')) [
  | inl e ↦
      rw e
        (match_drive-Leaves _ _ (x ∷ s) ms (to_lower_byte-alpha c (ground arith)) w (omega arith))
  | inr e ↦ rw e (none, refl, tt)
]

strip_prefix-cons :
    (p : Bytes) (c : ℕ) (s r : Bytes)
    → strip_prefix p (c ∷ s) ≡ some r
    → (r ≡ c ∷ s) ⊎ (length r ≤ length s)
unfolding strip_prefix
strip_prefix-cons [] c s r e = inl (ground arith)
strip_prefix-cons (x ∷ p) c s r e = inr (omega (arith, length-strip_prefix (x ∷ p) (c ∷ s) r e))

length-span_keep :
    (keep : ℕ → Bool) (c : ℕ) (s : Bytes) → keep c ≡ true → length (span keep (c ∷ s)).1 ≤ length s
unfolding span
length-span_keep keep c s h = ground (arith, length-span keep s)

match_wsl-Leaves :
    (c : ℕ) (s : Bytes) (ms : List PathMapping)
    → in_path c ≡ true
    → Leaves (length s) (match_wsl (c ∷ s) ms)
unfolding match_wsl
match_wsl-Leaves c s [] k = tt
match_wsl-Leaves c s (m ∷ ms) k = elim (Option-cases (strip_prefix m.from (c ∷ s))) [
  | inl e ↦ ground (arith, match_wsl-Leaves c s ms k)
  | inr (after, e) ↦ ground (
    arith,
    match_wsl-Leaves c s ms k,
    length-span in_path after,
    length-span_keep in_path c s k,
    strip_prefix-cons m.from c s after e,
  )
]

wsl_hit-Leaves :
    (c : ℕ) (s : Bytes) (ms : List PathMapping) → Leaves (length s) (wsl_hit ms (c ∷ s))
unfolding wsl_hit
wsl_hit-Leaves c s ms = elim (Bool-cases (wsl_here (c ∷ s))) [
  | inl e ↦ ground (arith, match_wsl-Leaves c s ms (wsl_here-in_path c s e))
  | inr e ↦ ground arith
]

pub container_hit-Leaves :
    (c : ℕ) (s : Bytes) (ms : List PathMapping)
    → All Sliceable ms
    → (h : Hit) × (container_hit ms (c ∷ s) ≡ done h) × Leaves (length s) h
unfolding container_hit
container_hit-Leaves c s ms w =
    let (h, e, l) = drive_hit-Leaves c s ms w in
    rw e (
      or_else-done (length s) h l (
        or_else-done (length s) _ (unc_hit-Leaves c s ms)
          (wsl_hit ms (c ∷ s), refl, wsl_hit-Leaves c s ms)))
