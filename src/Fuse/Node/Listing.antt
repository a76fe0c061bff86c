-- ===== src/Fuse/Node/Listing.antt =====
-- The names that a directory shows, and the files that they lead back to.
use ccbox.Common.{
  ◌<◌, ◌≡◌, refl, ap, sym, ◌∙◌, inl, inr, true, false, ◌&&◌, none, some, List, [], ◌∷◌, ◌++◌, map,
  append-nil, append_assoc, arith, length, drop, All, All-append, All-map, length-append, Bytes,
  equal, equal_iff, Bool-cases, Option-cases, done,
}
use mathlib.Core.List.{map-append}
use ccbox.Fuse.Config.{DirMapping}
use ccbox.Fuse.PathUtil.{get_source_path}
use ccbox.Fuse.PathUtil.Segments.{
  IsName, join, to_native, map-to_native_nil, translate_path_segments-join,
}
use ccbox.Fuse.Node.Kernel.{FileInfo, Root, Node}
use ccbox.Fuse.Node.Tree.{
  child_path, fuse_path, source_path, DirEntry, entry_mode, has_name, shown_name, is_hidden,
  list_entry,
}

-- No mapping before has the container name.
abbrev NotBefore : Bytes → List DirMapping → Type 0
NotBefore name ds = All (λ d. equal d.container_name name ≡ false) ds

-- The container names are different.
abbrev pub AreDistinct : List DirMapping → Type 0
AreDistinct [] = Unit
AreDistinct (d ∷ ds) = NotBefore d.container_name ds × AreDistinct ds

equal_sym : (s t : Bytes) → equal s t ≡ equal t s
equal_sym s t = ground (arith, equal_iff s t, equal_iff t s)

-- A name that is neither the entry's nor a container name is not shown.
shown_name_other :
    (all : List FileInfo) (ds : List DirMapping) (name shown other : Bytes)
    → NotBefore other ds
    → equal name other ≡ false
    → shown_name all ds name ≡ some shown
    → equal shown other ≡ false
unfolding shown_name
shown_name_other all [] name shown other h n e = ground (arith, e, n)
shown_name_other all (d ∷ ds) name shown other h n e =
    elim (Bool-cases (equal name d.native_name)) [
      | inl t ↦ ground (arith, h.0, (rw t at e))
      | inr f ↦ elim (Bool-cases (equal name d.container_name && has_name d.native_name all)) [
        | inl t ↦ absurd (ground (arith, (rw (f, t) at e)))
        | inr g ↦ shown_name_other all ds name shown other h.1 n (rw (f, g) at e)
      ]
    ]

-- The shown name is that of the first mapping with this native name, or the name itself where no mapping
-- has it as a container name.
to_native-shown_name :
    (all : List FileInfo) (ds : List DirMapping) (name shown : Bytes)
    → AreDistinct ds
    → All (λ d. equal name d.container_name ≡ true → has_name d.native_name all ≡ true) ds
    → shown_name all ds name ≡ some shown
    → to_native ds shown ≡ name
unfolding shown_name
to_native-shown_name all [] name shown a h e = ground (arith, e)
to_native-shown_name all (d ∷ ds) name shown a h e = elim (Bool-cases (equal name d.native_name)) [
  | inl t ↦
      let same : d.container_name ≡ shown = ground (arith, (rw t at e)) in
      rw ((equal_iff d.container_name shown).1 same, to_native)
        (ground (arith, equal_iff name d.native_name, t))
  | inr f ↦ elim (Bool-cases (equal name d.container_name)) [
    | inl t ↦ absurd (ground (arith, (rw (f, t, h.0 t) at e)))
    | inr g ↦
        let later : shown_name all ds name ≡ some shown = (rw (f, g) at e) in
        rw
          (
            equal_sym d.container_name shown,
            shown_name_other all ds name shown d.container_name a.0 g later,
            to_native,
          )
          (to_native-shown_name all ds name shown a.1 h.1 later)
  ]
]

-- A segment of a path.
abbrev pub IsSegment : Bytes → Type 0
IsSegment w = IsName w × (0 < length w)

join-append : (ws : List Bytes) (w : Bytes) → join (ws ++ w ∷ []) ≡ join ws ++ b'/' ∷ w
join-append [] w = ap (◌∷◌ b'/') (append-nil w)
join-append (v ∷ ws) w =
    ap (◌∷◌ b'/') (ap (◌++◌ v) (join-append ws w) ∙ sym (append_assoc v (join ws) (b'/' ∷ w)))

-- The path of a name in the directory with these segments.
child_path-join :
    (ws : List Bytes) (name : Bytes)
    → All IsSegment ws
    → 0 < length name
    → b'/' ∷ child_path (drop 1 (join ws)) name ≡ join (ws ++ name ∷ [])
unfolding child_path
child_path-join ws [] h l = absurd (omega arith)
child_path-join [] (c ∷ name) h l = ap (◌∷◌ b'/') (sym (append-nil (c ∷ name)))
child_path-join ([] ∷ ws) (c ∷ name) h l = absurd (omega (arith, h.0.1))
child_path-join ((x ∷ w) ∷ ws) (c ∷ name) h l = sym (join-append ((x ∷ w) ∷ ws) (c ∷ name))

get_source_path-join :
    (dir : Bytes) (ds : List DirMapping) (ws : List Bytes)
    → All (λ d. IsName d.container_name) ds
    → All IsName ws
    → 0 < length ws
    → get_source_path dir (join ws) ds ≡ done (dir ++ join (map (to_native ds) ws))
unfolding get_source_path
get_source_path-join dir ds [] hd hw l = absurd (omega arith)
get_source_path-join dir [] (w ∷ ws) hd hw l =
    ap (λ vs. done (dir ++ join vs)) (map-to_native_nil (w ∷ ws))
get_source_path-join dir (d ∷ ds) (w ∷ ws) hd hw l =
    rw (translate_path_segments-join (d ∷ ds) (w ∷ ws) hd hw) refl

list_entry-shown_name :
    (all : List FileInfo) (ds : List DirMapping) (e : FileInfo) (entry : DirEntry)
    → list_entry all ds e ≡ some entry
    → shown_name all ds e.name ≡ some entry.name
unfolding list_entry
list_entry-shown_name all ds e entry h = elim (Bool-cases (is_hidden e.name)) [
  | inl t ↦ absurd (ground (arith, (rw t at h)))
  | inr f ↦ elim (Option-cases (shown_name all ds e.name)) [
    | inl g ↦ absurd (ground (arith, (rw (f, g) at h)))
    | inr (name, g) ↦
        let same : some (record { name = name; mode = entry_mode e }) ≡ some entry =
          (rw (f, g) at h) in
        g ∙ ap (λ o. elim o [ none ↦ none | some x ↦ some x.name ]) same
  ]
]

-- Where the mappings' container names differ, and the entry has the container name of a mapping only if
-- the directory has that mapping's native name too, a name that the directory shows for an entry leads,
-- below any path, to the entry's own name: its path is the source directory, the native names of the
-- path's segments, and that name. Names are not empty and have no slash.
pub source_path-list_entry :
    (r : Root) (n : Node) (ws : List Bytes) (all : List FileInfo) (e : FileInfo) (entry : DirEntry)
    → n.path ≡ drop 1 (join ws)
    → All IsSegment ws
    → All (λ d. IsName d.container_name) r.config.dir_mappings
    → AreDistinct r.config.dir_mappings
    → All
        (λ d. equal e.name d.container_name ≡ true → has_name d.native_name all ≡ true)
        r.config.dir_mappings
    → IsSegment entry.name
    → list_entry all r.config.dir_mappings e ≡ some entry
    → source_path r n entry.name
      ≡ done (r.source_dir ++ (join (map (to_native r.config.dir_mappings) ws) ++ b'/' ∷ e.name))
unfolding source_path fuse_path
source_path-list_entry r n ws all e entry p hw hd distinct natives he h =
    let ds = r.config.dir_mappings in
    let names =
      All-append IsName ws (entry.name ∷ []) (All-map IsSegment IsName ws (λ w s. s.0) hw)
        (he.0, tt) in
    let back =
      to_native-shown_name all ds e.name entry.name distinct natives
        (list_entry-shown_name all ds e entry h) in
    ap (λ q. get_source_path r.source_dir (b'/' ∷ child_path q entry.name) ds) p
    ∙ ap (λ q. get_source_path r.source_dir q ds) (child_path-join ws entry.name hw he.1)
    ∙ get_source_path-join r.source_dir ds (ws ++ entry.name ∷ []) hd names
        (omega (arith, length-append ws (entry.name ∷ [])))
    ∙ ap (λ vs. done (r.source_dir ++ join vs)) (map-append (to_native ds) ws (entry.name ∷ []))
    ∙ ap (λ q. done (r.source_dir ++ q))
        (join-append (map (to_native ds) ws) (to_native ds entry.name))
    ∙ ap (λ v. done (r.source_dir ++ (join (map (to_native ds) ws) ++ b'/' ∷ v))) back
