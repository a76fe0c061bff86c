-- ===== src/Run/Args/CleanPaths.antt =====
-- The paths that an entry of CCBOX_PATH_MAP can carry: the parser takes the entry apart as it was put
-- together.
use mathlib.Core.List.{reverse, reverse-append, reverse-reverse}
use ccbox.Common.{
  codes, ℕ, ◌≡◌, refl, sym, ap, ◌∙◌, ◌⊎◌, inl, inr, true, false, some, [], ◌∷◌, ◌++◌, map, arith,
  ◌==◌, Bytes, All, All-map, All-append,
}
use ccbox.Paths.Defs.{is_letter, drive_letter_to_container_path}
use ccbox.Fuse.Config.{
  within, cut, space2, space3, trim_by, trim_space, to_slash, strip_slashes, normalize_path,
  second_is_colon, split_entry, mapping_of, trimmed_entry, parse_entry, make_mapping,
}

-- A byte other than the semicolon and the backslash.
abbrev pub IsCarried : ℕ → Type 0
IsCarried c = ((c == b';') ≡ false) × ((c == b'\\') ≡ false)

-- A printable ASCII character other than the space.
abbrev pub IsVisible : ℕ → Type 0
IsVisible c = within 0x21 0x7E c ≡ true

abbrev pub NoColon : Bytes → Type 0
NoColon s = All (λ c. (c == b':') ≡ false) s

-- The path has two bytes at least, and no colon but one right behind its first byte.
abbrev pub HasDriveColon : Bytes → Type 0
HasDriveColon (a ∷ b ∷ s) = NoColon s × (((b == b':') ≡ true) ⊎ NoColon (a ∷ b ∷ []))
HasDriveColon _ = ⊥

-- A path and the path that it is mapped to: no semicolon or backslash in them and no slash at their end,
-- no colon in the first but a drive's, and a visible character at the first one's beginning and the
-- second one's end.
pub record IsClean (m : Bytes × Bytes) : Type 0 where
  pub from_bytes : All IsCarried m.0
  pub to_bytes : All IsCarried m.1
  pub colon : HasDriveColon m.0
  pub begins : (c : ℕ) × (s : Bytes) × (m.0 ≡ c ∷ s) × IsVisible c
  pub from_ends : (s : Bytes) × (c : ℕ) × (m.0 ≡ s ++ c ∷ []) × ((c == b'/') ≡ false)
  pub to_ends : (s : Bytes) × (c : ℕ) × (m.1 ≡ s ++ c ∷ []) × ((c == b'/') ≡ false) × IsVisible c

cut_at : (w rest : Bytes) → NoColon w → cut b':' (w ++ b':' ∷ rest) ≡ some (w, rest)
unfolding cut
cut_at [] rest h = refl
cut_at (c ∷ w) rest h = rw (h.0, cut_at w rest h.1) refl

split_entry_at :
    (from to : Bytes) → HasDriveColon from → split_entry (from ++ b':' ∷ to) ≡ some (from, to)
unfolding split_entry second_is_colon cut
split_entry_at [] to h = absurd h
split_entry_at (a ∷ []) to h = absurd h
split_entry_at (a ∷ b ∷ s) to (h, inl e) = rw (e, cut_at s to h) refl
split_entry_at (a ∷ b ∷ s) to (h, inr (ha, (hb, u))) = rw (hb, ha, cut_at s to h) refl

map-to_slash : (s : Bytes) → All IsCarried s → map to_slash s ≡ s
map-to_slash [] h = refl
map-to_slash (c ∷ s) h = rw (h.0.1, map-to_slash s h.1) refl

strip_slashes-other : (c : ℕ) (s : Bytes) → (c == b'/') ≡ false → strip_slashes (c ∷ s) ≡ c ∷ s
unfolding strip_slashes
strip_slashes-other c [] h = refl
strip_slashes-other c (d ∷ s) h = rw h refl

normalize_path-same :
    (p : Bytes)
    → All IsCarried p
    → ((s : Bytes) × (c : ℕ) × (p ≡ s ++ c ∷ []) × ((c == b'/') ≡ false))
    → normalize_path p ≡ p
unfolding normalize_path
normalize_path-same p h (s, c, e, n) =
    let backwards : reverse p ≡ c ∷ reverse s = ap reverse e ∙ reverse-append s (c ∷ []) in
    ap (λ q. reverse (strip_slashes (reverse q))) (map-to_slash p h)
    ∙ ap (λ q. reverse (strip_slashes q)) backwards
    ∙ ap reverse (strip_slashes-other c (reverse s) n ∙ sym backwards)
    ∙ reverse-reverse p

trim_by-visible_first : (c : ℕ) (s : Bytes) → IsVisible c → trim_by space2 space3 (c ∷ s) ≡ c ∷ s
unfolding trim_by
trim_by-visible_first c [] h = ground (arith, h)
trim_by-visible_first c (d ∷ []) h = ground (arith, h)
trim_by-visible_first c (d ∷ e ∷ s) h = ground (arith, h)

trim_by-visible_last :
    (c : ℕ) (s : Bytes)
    → IsVisible c
    → trim_by (λ a b. space2 b a) (λ a b d. space3 d b a) (c ∷ s) ≡ c ∷ s
unfolding trim_by
trim_by-visible_last c [] h = ground (arith, h)
trim_by-visible_last c (d ∷ []) h = ground (arith, h)
trim_by-visible_last c (d ∷ e ∷ s) h = ground (arith, h)

-- `from+":"+to`
abbrev pub entry : Bytes × Bytes → Bytes
entry (from, to) = from ++ b':' ∷ to

trim_first :
    (p q : Bytes)
    → ((c : ℕ) × (s : Bytes) × (p ≡ c ∷ s) × IsVisible c)
    → trim_by space2 space3 (p ++ q) ≡ p ++ q
trim_first p q (c, s, e, v) =
    ap (λ r. trim_by space2 space3 (r ++ q)) e
    ∙ trim_by-visible_first c (s ++ q) v
    ∙ ap (λ r. r ++ q) (sym e)

trim_last :
    (p q : Bytes)
    → ((s : Bytes) × (c : ℕ) × (q ≡ s ++ c ∷ []) × ((c == b'/') ≡ false) × IsVisible c)
    → reverse (trim_by (λ a b. space2 b a) (λ a b d. space3 d b a) (reverse (p ++ q))) ≡ p ++ q
trim_last p q (s, c, e, n, v) =
    let backwards : reverse (p ++ q) ≡ c ∷ (reverse s ++ reverse p) =
      reverse-append p q ∙ ap (λ r. r ++ reverse p) (ap reverse e ∙ reverse-append s (c ∷ [])) in
    ap (λ r. reverse (trim_by (λ a b. space2 b a) (λ a b d. space3 d b a) r)) backwards
    ∙ ap reverse (trim_by-visible_last c (reverse s ++ reverse p) v ∙ sym backwards)
    ∙ reverse-reverse (p ++ q)

trim_space-entry : (m : Bytes × Bytes) → IsClean m → trim_space (entry m) ≡ entry m
unfolding trim_space
trim_space-entry (from, to) h =
    let (s, c, e, n, v) = h.to_ends in
    ap (λ r. reverse (trim_by (λ a b. space2 b a) (λ a b d. space3 d b a) (reverse r)))
      (trim_first from (b':' ∷ to) h.begins)
    ∙ trim_last from (b':' ∷ to) (b':' ∷ s, c, ap (λ t. b':' ∷ t) e, n, v)

no_split : (m : Bytes × Bytes) → split_entry [] ≡ some m → ⊥
unfolding split_entry cut
no_split m e = ground (arith, e)

trimmed_entry-mapping_of :
    (s : Bytes) (m : Bytes × Bytes)
    → split_entry s ≡ some m
    → trimmed_entry s ≡ mapping_of (split_entry s)
unfolding trimmed_entry
trimmed_entry-mapping_of [] m e = absurd (no_split m e)
trimmed_entry-mapping_of (c ∷ s) m e = refl

mapping_of-make_mapping :
    (m : Bytes × Bytes)
    → mapping_of (some m) ≡ some (make_mapping (normalize_path m.0) (normalize_path m.1))
unfolding mapping_of
mapping_of-make_mapping m = refl

parse_entry-trimmed_entry : (s : Bytes) → parse_entry s ≡ trimmed_entry (trim_space s)
unfolding parse_entry
parse_entry-trimmed_entry s = refl

pub parse_entry-entry :
    (m : Bytes × Bytes) → IsClean m → parse_entry (entry m) ≡ some (make_mapping m.0 m.1)
parse_entry-entry m c =
    parse_entry-trimmed_entry (entry m)
    ∙ ap trimmed_entry (trim_space-entry m c)
    ∙ trimmed_entry-mapping_of (entry m) m (split_entry_at m.0 m.1 c.colon)
    ∙ ap mapping_of (split_entry_at m.0 m.1 c.colon)
    ∙ mapping_of-make_mapping m
    ∙ ap (λ f. some (make_mapping f (normalize_path m.1)))
        (normalize_path-same m.0 c.from_bytes c.from_ends)
    ∙ ap (λ t. some (make_mapping m.0 t))
        (let (s, z, e, n, v) = c.to_ends in normalize_path-same m.1 c.to_bytes (s, z, e, n))

carried-Without : (s : Bytes) → All IsCarried s → All (λ c. (c == b';') ≡ false) s
carried-Without s h = All-map IsCarried (λ c. (c == b';') ≡ false) s (λ c k. k.0) h

-- An entry has no semicolon.
pub entry-Without : (m : Bytes × Bytes) → IsClean m → All (λ c. (c == b';') ≡ false) (entry m)
entry-Without (from, to) h =
    All-append (λ c. (c == b';') ≡ false) from (b':' ∷ to) (carried-Without from h.from_bytes)
      (refl, carried-Without to h.to_bytes)

letter-IsCarried : (d : ℕ) → is_letter d ≡ true → IsCarried d
unfolding is_letter
letter-IsCarried d h = (ground (arith, h), ground (arith, h))

letter-IsVisible : (d : ℕ) → is_letter d ≡ true → IsVisible d
unfolding is_letter
letter-IsVisible d h = ground (arith, h)

-- What Docker is given for a folder of a drive, and the folder's path in the container, can be carried, if
-- the path below the drive's root has no semicolon, backslash or colon and ends with a visible character
-- other than a slash.
pub drive-IsClean :
    (d c : ℕ) (s : Bytes)
    → is_letter d ≡ true
    → All IsCarried (s ++ c ∷ [])
    → NoColon (s ++ c ∷ [])
    → (c == b'/') ≡ false
    → IsVisible c
    → IsClean (
      d ∷ codes ":/" ++ (s ++ c ∷ []),
      drive_letter_to_container_path (d ∷ codes ":/" ++ (s ++ c ∷ [])),
    )
unfolding drive_letter_to_container_path
drive-IsClean d c s l carried colons n v = rw l record {
  from_bytes = (letter-IsCarried d l, ((refl, refl), ((refl, refl), carried)));
  to_bytes = ((refl, refl), (letter-IsCarried d l, ((refl, refl), carried)));
  colon = ((refl, colons), inl refl);
  begins = (d, codes ":/" ++ (s ++ c ∷ []), refl, letter-IsVisible d l);
  from_ends = (d ∷ codes ":/" ++ s, c, refl, n);
  to_ends = (b'/' ∷ d ∷ b'/' ∷ s, c, refl, n, v);
}
