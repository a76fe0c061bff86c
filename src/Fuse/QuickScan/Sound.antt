-- ===== src/Fuse/QuickScan/Sound.antt =====
-- Where the quick scan finds nothing, the rewriter of reads changes nothing.
use ccbox.Common.{
  ℕ, ◌≤◌, ◌≡◌, refl, ap, inl, inr, true, false, not, ◌&&◌, ◌||◌, none, List, [], ◌∷◌, arith, leb,
  ◌==◌, length, length-strip_prefix, All, Bytes, codes, strip_prefix, Bool-cases, Option-cases,
  done,
}
use mathlib.Core.Path.{subst}
use ccbox.Fuse.Config.{PathMapping, DirMapping, to_lower_byte, is_alpha}
use ccbox.Fuse.Scan.Laws.{Runs, Runs-nil, Runs-copy}
use ccbox.Fuse.Transform.{
  match_drive, drive_hit, match_unc, unc_hit, match_wsl, wsl_here, wsl_hit, container_hit, or_else,
  finish, transform_to_container,
}
use ccbox.Fuse.QuickScan.{
  clear_case, set_case, has_drive, scan_mapping, scan_mappings, quick_scan_has_mappings,
}
use ccbox.Paths.Defs.{contains_bytes}

length-contains_bytes : (p s : Bytes) → contains_bytes p s ≡ true → length p ≤ length s
unfolding contains_bytes
length-contains_bytes p [] h = elim (Option-cases (strip_prefix p [])) [
  | inl n ↦ absurd (ground (arith, (rw (n, contains_bytes) at h)))
  | inr (r, g) ↦ omega (arith, length-strip_prefix p [] r g)
]
length-contains_bytes p (c ∷ s) h = elim (Option-cases (strip_prefix p (c ∷ s))) [
  | inl n ↦ omega (arith, length-contains_bytes p s (rw (n, contains_bytes) at h))
  | inr (r, g) ↦ omega (arith, length-strip_prefix p (c ∷ s) r g)
]

contains_bytes-tail :
    (p : Bytes) (c : ℕ) (s : Bytes) → contains_bytes p (c ∷ s) ≡ false → contains_bytes p s ≡ false
unfolding contains_bytes
contains_bytes-tail p c s h = elim (Option-cases (strip_prefix p (c ∷ s))) [
  | inl n ↦ (rw (n, contains_bytes) at h)
  | inr (r, g) ↦ absurd (ground (arith, (rw (g, contains_bytes) at h)))
]

contains_bytes-here :
    (p : Bytes) (c : ℕ) (s : Bytes)
    → contains_bytes p (c ∷ s) ≡ false
    → strip_prefix p (c ∷ s) ≡ none
unfolding contains_bytes
contains_bytes-here p c s h = elim (Option-cases (strip_prefix p (c ∷ s))) [
  | inl n ↦ n
  | inr (r, g) ↦ absurd (ground (arith, (rw (g, contains_bytes) at h)))
]

has_drive-tail : (u l c : ℕ) (s : Bytes) → has_drive u l (c ∷ s) ≡ false → has_drive u l s ≡ false
unfolding has_drive
has_drive-tail u l c [] h = refl
has_drive-tail u l c (d ∷ s) h = ground (arith, h)

-- The mapping matches nowhere in the text.
pub record IsQuiet (s : Bytes) (m : PathMapping) : Type 0 where
  pub drive :
      (m.drive == 0) ≡ false
      → m.is_unc ≡ false
      → m.is_wsl ≡ false
      → has_drive (clear_case m.drive) (set_case m.drive) s ≡ false
  pub unc : m.is_unc ≡ true → contains_bytes (codes "\\\\") s ≡ false
  pub wsl : m.is_wsl ≡ true → contains_bytes (codes "/mnt/") s ≡ false

IsQuiet-tail : (c : ℕ) (s : Bytes) (m : PathMapping) → IsQuiet (c ∷ s) m → IsQuiet s m
IsQuiet-tail c s m q = record {
  drive = λ d u w. has_drive-tail (clear_case m.drive) (set_case m.drive) c s (q.drive d u w);
  unc = λ u. contains_bytes-tail (codes "\\\\") c s (q.unc u);
  wsl = λ w. contains_bytes-tail (codes "/mnt/") c s (q.wsl w);
}

All-tail :
    (c : ℕ) (s : Bytes) (ms : List PathMapping) → All (IsQuiet (c ∷ s)) ms → All (IsQuiet s) ms
All-tail c s [] h = tt
All-tail c s (m ∷ ms) h = (IsQuiet-tail c s m h.0, All-tail c s ms h.1)

-- `n >= k && bytes.Contains(data, p)`, for a `p` of `k` bytes.
not_contained :
    (p s : Bytes)
    → (leb (length p) (length s) && contains_bytes p s) ≡ false
    → contains_bytes p s ≡ false
not_contained p s h = elim (Bool-cases (contains_bytes p s)) [
  | inr e ↦ e
  | inl e ↦ absurd (ground (arith, h, e, length-contains_bytes p s e))
]

scan_mapping-IsQuiet : (s : Bytes) (m : PathMapping) → scan_mapping s m ≡ false → IsQuiet s m
unfolding scan_mapping
scan_mapping-IsQuiet s m h = record {
  drive = λ d u w. ground (arith, h, d, u, w);
  unc = λ u. not_contained (codes "\\\\") s (ground (arith, h, u));
  wsl = λ w. not_contained (codes "/mnt/") s (ground (arith, h, w));
}

-- A letter is one of the two cases of its lower case.
cases_of_lower :
    (a : ℕ) → (a == clear_case (to_lower_byte a) || a == set_case (to_lower_byte a)) ≡ true
unfolding clear_case set_case to_lower_byte
cases_of_lower a = ground arith

scan_mappings-IsQuiet :
    (s : Bytes) (ms : List PathMapping) → scan_mappings s ms ≡ false → All (IsQuiet s) ms
unfolding scan_mappings
scan_mappings-IsQuiet s [] h = tt
scan_mappings-IsQuiet s (m ∷ ms) h =
    (scan_mapping-IsQuiet s m (ground (arith, h)), scan_mappings-IsQuiet s ms (ground (arith, h)))

has_drive-here :
    (u l a : ℕ) (s : Bytes) → has_drive u l (a ∷ b':' ∷ s) ≡ false → (a == u || a == l) ≡ false
unfolding has_drive
has_drive-here u l a s h = ground (arith, h)

to_lower_byte-nonzero : (a : ℕ) → is_alpha a ≡ true → (to_lower_byte a == 0) ≡ false
unfolding is_alpha to_lower_byte
to_lower_byte-nonzero a h = ground (arith, h)

-- No mapping of a drive has the letter that stands in front of a colon.
no_drive :
    (a : ℕ) (s : Bytes) (m : PathMapping)
    → is_alpha a ≡ true
    → IsQuiet (a ∷ b':' ∷ s) m
    → (m.drive == to_lower_byte a && not m.is_unc && not m.is_wsl) ≡ false
no_drive a s m h q =
    elim (Bool-cases (m.drive == to_lower_byte a && not m.is_unc && not m.is_wsl)) [
      | inr e ↦ e
      | inl e ↦
          let same : m.drive ≡ to_lower_byte a = ground (arith, e) in
          let up = ap clear_case same in
          let low = ap set_case same in
          absurd (
            ground (
              arith,
              to_lower_byte-nonzero a h,
              cases_of_lower a,
              same,
              up,
              low,
              e,
              has_drive-here (clear_case m.drive) (set_case m.drive) a s (
                  q.drive (ground (arith, same, to_lower_byte-nonzero a h)) (ground (arith, e))
                    (ground (arith, e))),
            ))
    ]

match_drive-none :
    (a : ℕ) (s : Bytes) (ms : List PathMapping)
    → is_alpha a ≡ true
    → All (IsQuiet (a ∷ b':' ∷ s)) ms
    → match_drive (to_lower_byte a) s ms ≡ done none
unfolding match_drive
match_drive-none a s [] h q = refl
match_drive-none a s (m ∷ ms) h q = rw (no_drive a s m h q.0, match_drive-none a s ms h q.1) refl

drive_hit-none :
    (s : Bytes) (ms : List PathMapping) → All (IsQuiet s) ms → drive_hit ms s ≡ done none
unfolding drive_hit
drive_hit-none [] ms q = refl
drive_hit-none (a ∷ []) ms q = refl
drive_hit-none (a ∷ b ∷ []) ms q = refl
drive_hit-none (a ∷ b ∷ x ∷ s) ms q = elim (Bool-cases (is_alpha a && b == b':')) [
  | inr e ↦ rw (e, drive_hit) refl
  | inl e ↦
      let colon : b ≡ b':' = ground (arith, e) in
      rw (e, drive_hit)
        (match_drive-none a (x ∷ s) ms (ground (arith, e))
          (subst (λ (z : ℕ). All (IsQuiet (a ∷ z ∷ x ∷ s)) ms) colon q))
]

unc_here : (s : Bytes) → contains_bytes (codes "\\\\") (b'\\' ∷ b'\\' ∷ s) ≡ false → false ≡ true
unfolding contains_bytes strip_prefix
unc_here s h = ground (arith, h)

match_unc-none :
    (s : Bytes) (ms : List PathMapping)
    → All (IsQuiet (b'\\' ∷ b'\\' ∷ s)) ms
    → match_unc (b'\\' ∷ b'\\' ∷ s) ms ≡ none
unfolding match_unc
match_unc-none s [] q = refl
match_unc-none s (m ∷ ms) q = elim (Bool-cases m.is_unc) [
  | inr e ↦ rw (e, match_unc-none s ms q.1) refl
  | inl e ↦ absurd (ground (arith, unc_here s (q.0.unc e)))
]

unc_hit-none : (s : Bytes) (ms : List PathMapping) → All (IsQuiet s) ms → unc_hit ms s ≡ none
unfolding unc_hit
unc_hit-none [] ms q = refl
unc_hit-none (a ∷ []) ms q = refl
unc_hit-none (a ∷ b ∷ s) ms q = elim (Bool-cases (a == b'\\' && b == b'\\')) [
  | inr e ↦ rw e refl
  | inl e ↦
      let first : a ≡ b'\\' = ground (arith, e) in
      let second : b ≡ b'\\' = ground (arith, e) in
      rw (e, first, second)
        (match_unc-none s ms (
          subst (λ (z : ℕ). All (IsQuiet (b'\\' ∷ z ∷ s)) ms) second
            (subst (λ (z : ℕ). All (IsQuiet (z ∷ b ∷ s)) ms) first q)))
]

match_wsl-none :
    (s : Bytes) (ms : List PathMapping)
    → contains_bytes (codes "/mnt/") s ≡ true
    → All (IsQuiet s) ms
    → match_wsl s ms ≡ none
unfolding match_wsl
match_wsl-none s [] h q = refl
match_wsl-none s (m ∷ ms) h q = elim (Bool-cases m.is_wsl) [
  | inr e ↦ rw (e, match_wsl-none s ms h q.1) refl
  | inl e ↦ absurd (ground (arith, h, q.0.wsl e))
]

wsl_here-contains : (s : Bytes) → wsl_here s ≡ true → contains_bytes (codes "/mnt/") s ≡ true
unfolding wsl_here contains_bytes
wsl_here-contains [] h = absurd (ground (arith, h))
wsl_here-contains (c ∷ s) h = elim (Option-cases (strip_prefix (codes "/mnt/") (c ∷ s))) [
  | inl n ↦ absurd (ground (arith, (rw (n, wsl_here) at h)))
  | inr (r, g) ↦ rw (g, contains_bytes) refl
]

wsl_hit-none : (s : Bytes) (ms : List PathMapping) → All (IsQuiet s) ms → wsl_hit ms s ≡ none
unfolding wsl_hit
wsl_hit-none s ms q = elim (Bool-cases (wsl_here s)) [
  | inr e ↦ rw (e, wsl_hit) refl
  | inl e ↦ rw (e, wsl_hit) (match_wsl-none s ms (wsl_here-contains s e) q)
]

container_hit-none :
    (s : Bytes) (ms : List PathMapping) → All (IsQuiet s) ms → container_hit ms s ≡ done none
unfolding container_hit or_else
container_hit-none s ms q =
    rw (drive_hit-none s ms q, unc_hit-none s ms q, wsl_hit-none s ms q) refl

container_hit-Runs :
    (s : Bytes) (ms : List PathMapping) → All (IsQuiet s) ms → Runs (container_hit ms) s (s, false)
container_hit-Runs [] ms q = Runs-nil (container_hit ms)
container_hit-Runs (c ∷ s) ms q =
    Runs-copy (container_hit ms) c s s false (container_hit-none (c ∷ s) ms q)
      (container_hit-Runs s ms (All-tail c s ms q))

-- Where the quick scan of a whole buffer finds nothing, `TransformToContainer` leaves the buffer
-- unchanged.
pub transform_to_container-quick_scan :
    (s : Bytes) (ms : List PathMapping) (ds : List DirMapping)
    → quick_scan_has_mappings s ms ds ≡ false
    → transform_to_container s ms ds ≡ done none
unfolding transform_to_container finish quick_scan_has_mappings
transform_to_container-quick_scan [] ms ds h = refl
transform_to_container-quick_scan (c ∷ s) [] ds h = refl
transform_to_container-quick_scan (c ∷ s) (m ∷ ms) ds h =
    rw
      (container_hit-Runs (c ∷ s) (m ∷ ms)
        (scan_mappings-IsQuiet (c ∷ s) (m ∷ ms) (ground (arith, h))) (length (c ∷ s)) (omega arith))
      refl
