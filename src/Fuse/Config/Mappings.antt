-- ===== src/Fuse/Config/Mappings.antt =====
-- What the parser of the path map guarantees of its mappings.
use mathlib.Core.List.{reverse, reverse-cons}
use ccbox.Common.{
  ℕ, ◌≤◌, ◌<◌, ◌≡◌, ◌≢◌, refl, inl, inr, true, false, Option, none, some, List, [], ◌∷◌, ◌++◌, map,
  arith, length, length-append, leb, All, All-append, All-map, Bytes, Option-cases, Bool-cases,
  ◌==◌,
}
use ccbox.Fuse.Config.{
  PathMapping, DirMapping, max_mappings, split, trim_space, strip_slashes, to_slash, normalize_path,
  make_mapping, mapping_of, split_entry, trimmed_entry, parse_entry, parse_entries, parse_path_map,
}
use ccbox.Fuse.Scan.Laws.{Returns}
use ccbox.Fuse.Transform.{transform_to_container}
use ccbox.Fuse.Transform.Progress.{Sliceable}
use ccbox.Fuse.Transform.Total.{transform_to_container-Returns}
use mathlib.Core.Path.{subst}

abbrev pub IsForward : ℕ → Type 0
IsForward c = c ≢ b'\\'

pub record IsParsed (m : PathMapping) : Type 0 where
  pub sliceable : Sliceable m
  pub from_forward : All IsForward m.from
  pub to_forward : All IsForward m.to
  pub one_kind : m.is_unc ≡ true → (m.is_wsl ≡ false) × (m.drive ≡ 0)

module _ {A : Type 0} (P : A → Type 0) (limit : ℕ) (parse : Bytes → Option A) where
  parse_entries-All :
      ((e : Bytes) (m : A) → parse e ≡ some m → P m)
      → (es : List Bytes) (acc : List A) → All P acc
      → All P (parse_entries limit parse acc es)
  unfolding parse_entries
  parse_entries-All ok [] acc h = h
  parse_entries-All ok (e ∷ es) acc h = elim (Option-cases (parse e)) [
    | inl n ↦ rw (n, parse_entries) (parse_entries-All ok es acc h)
    | inr (m, eq) ↦
        let longer = All-append P acc (m ∷ []) h (ok e m eq, tt) in
        elim (Bool-cases (leb limit (length (acc ++ m ∷ [])))) [
          | inl full ↦ rw (eq, full, parse_entries) longer
          | inr room ↦ rw (eq, room, parse_entries) (parse_entries-All ok es (acc ++ m ∷ []) longer)
        ]
  ]

module _ {A : Type 0} (limit : ℕ) (parse : Bytes → Option A) where
  length-parse_entries :
      (es : List Bytes) (acc : List A)
      → length acc < limit
      → length (parse_entries limit parse acc es) ≤ limit
  unfolding parse_entries
  length-parse_entries [] acc h = omega arith
  length-parse_entries (e ∷ es) acc h = elim (Option-cases (parse e)) [
    | inl n ↦ rw (n, parse_entries) (length-parse_entries es acc h)
    | inr (m, eq) ↦ elim (Bool-cases (leb limit (length (acc ++ m ∷ [])))) [
      | inl full ↦ rw (eq, full, parse_entries) (omega (arith, length-append acc (m ∷ [])))
      | inr room ↦
          rw (eq, room, parse_entries)
            (length-parse_entries es (acc ++ m ∷ []) (ground (arith, room)))
    ]
  ]

All-reverse : (P : ℕ → Type 0) (s : Bytes) → All P s → All P (reverse s)
All-reverse P [] h = tt
All-reverse P (c ∷ s) h =
    rw (reverse-cons c s) (All-append P (reverse s) (c ∷ []) (All-reverse P s h.1) (h.0, tt))

map-to_slash : (s : Bytes) → All IsForward (map to_slash s)
map-to_slash [] = tt
map-to_slash (c ∷ s) = (ground arith, map-to_slash s)

strip_slashes-All : (P : ℕ → Type 0) (s : Bytes) → All P s → All P (strip_slashes s)
unfolding strip_slashes
strip_slashes-All P [] h = tt
strip_slashes-All P (c ∷ []) h = h
strip_slashes-All P (c ∷ d ∷ s) h = elim (Bool-cases (c == b'/')) [
  | inl e ↦ rw e (strip_slashes-All P (d ∷ s) h.1)
  | inr e ↦ rw e h
]

normalize_path-IsForward : (s : Bytes) → All IsForward (normalize_path s)
unfolding normalize_path
normalize_path-IsForward s =
    All-reverse IsForward _
      (strip_slashes-All IsForward _ (All-reverse IsForward (map to_slash s) (map-to_slash s)))

make_mapping-Sliceable : (from to : Bytes) → Sliceable (make_mapping from to)
unfolding make_mapping
make_mapping-Sliceable [] to = inr (inl refl)
make_mapping-Sliceable (a ∷ []) to = ground arith
make_mapping-Sliceable (a ∷ b ∷ s) to = inl (omega arith)

make_mapping_one_kind :
    (from to : Bytes)
    → (make_mapping from to).is_unc ≡ true
    → ((make_mapping from to).is_wsl ≡ false) × ((make_mapping from to).drive ≡ 0)
unfolding make_mapping
make_mapping_one_kind [] to h = ground arith
make_mapping_one_kind (a ∷ []) to h = ground arith
make_mapping_one_kind (a ∷ b ∷ s) to h = ground arith

make_mapping-IsParsed :
    (from to : Bytes) → IsParsed (make_mapping (normalize_path from) (normalize_path to))
make_mapping-IsParsed from to = record {
  sliceable = make_mapping-Sliceable (normalize_path from) (normalize_path to);
  from_forward = unfold make_mapping in normalize_path-IsForward from;
  to_forward = unfold make_mapping in normalize_path-IsForward to;
  one_kind = make_mapping_one_kind (normalize_path from) (normalize_path to);
}

mapping_of-eq :
    (from to : Bytes) (m : PathMapping)
    → mapping_of (some (from, to)) ≡ some m
    → make_mapping (normalize_path from) (normalize_path to) ≡ m
unfolding mapping_of
mapping_of-eq from to m h = cc

mapping_of-IsParsed :
    (sides : Option (Bytes × Bytes)) (m : PathMapping) → mapping_of sides ≡ some m → IsParsed m
mapping_of-IsParsed none m h = unfold mapping_of in absurd (ground arith)
mapping_of-IsParsed (some (from, to)) m h =
    subst IsParsed (mapping_of-eq from to m h) (make_mapping-IsParsed from to)

trimmed_entry-IsParsed : (e : Bytes) (m : PathMapping) → trimmed_entry e ≡ some m → IsParsed m
trimmed_entry-IsParsed [] m h = unfold trimmed_entry in absurd (ground arith)
trimmed_entry-IsParsed (c ∷ s) m h =
    mapping_of-IsParsed (split_entry (c ∷ s)) m (unfold trimmed_entry in h)

parse_entry-IsParsed : (e : Bytes) (m : PathMapping) → parse_entry e ≡ some m → IsParsed m
parse_entry-IsParsed e m h = trimmed_entry-IsParsed (trim_space e) m (unfold parse_entry in h)

-- Every mapping that the parser returns has forward slashes only, a text that may be sliced behind
-- a drive letter, and is not both a UNC mapping and one of a drive; there are at most 32.
pub parse_path_map-IsParsed :
    (text : Bytes)
    → All IsParsed (parse_path_map text) × (length (parse_path_map text) ≤ max_mappings)
parse_path_map-IsParsed [] = unfold parse_path_map in (tt, omega arith)
parse_path_map-IsParsed (c ∷ s) =
    unfold parse_path_map in
    (
      parse_entries-All IsParsed max_mappings parse_entry parse_entry-IsParsed (split b';' (c ∷ s))
          [] tt,
      length-parse_entries max_mappings parse_entry (split b';' (c ∷ s)) [] (omega arith),
    )

-- The rewriter of reads never panics and always returns under a configuration that was parsed.
pub transform_to_container-parse_path_map :
    (buf text : Bytes) (dirs : List DirMapping)
    → Returns (transform_to_container buf (parse_path_map text) dirs)
transform_to_container-parse_path_map buf text dirs =
    transform_to_container-Returns buf (parse_path_map text) dirs (
      All-map IsParsed Sliceable (parse_path_map text) (λ m p. p.sliceable)
        (parse_path_map-IsParsed text).0)
