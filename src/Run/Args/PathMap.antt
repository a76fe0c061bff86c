-- ===== src/Run/Args/PathMap.antt =====
-- The mappings that the arguments carry, as the file system reads them.
use ccbox.Common.{
  ℕ, suc, ◌+◌, ◌≤◌, ◌≡◌, refl, sym, ap, ◌∙◌, inl, inr, Bool, true, false, Option, some, List, [],
  ◌∷◌, ◌++◌, map, arith, append-nil, append_assoc, ◌==◌, leb, if◌then◌else◌, length, length-append,
  Bytes, All, Bool-cases, codes, equal,
}
use ccbox.Fuse.Config.{
  PathMapping, split, parse_entry, parse_entries, parse_path_map, make_mapping, max_mappings,
}
use ccbox.Paths.Defs.{to_slash}
use ccbox.Run.Args.CleanPaths.{IsClean, entry, parse_entry-entry, entry-Without}
use ccbox.Run.Args.{join, is_wsl_match, path_mappings}

-- No such byte stands in the text.
abbrev pub Without : ℕ → Bytes → Type 0
Without sep s = All (λ c. (c == sep) ≡ false) s

split_one : (sep : ℕ) (w : Bytes) → Without sep w → split sep w ≡ w ∷ []
unfolding split
split_one sep [] h = refl
split_one sep (c ∷ w) h = rw (h.0, split_one sep w h.1) refl

split-append :
    (sep : ℕ) (w rest : Bytes)
    → Without sep w
    → (sep == sep) ≡ true
    → split sep (w ++ sep ∷ rest) ≡ w ∷ split sep rest
unfolding split
split-append sep [] rest h e = rw e refl
split-append sep (c ∷ w) rest h e = rw (h.0, split-append sep w rest h.1 e) refl

split-join :
    (e : Bytes) (es : List Bytes)
    → All (Without b';') (e ∷ es)
    → split b';' (join (e ∷ es)) ≡ e ∷ es
unfolding join
split-join e [] h = split_one b';' e h.0
split-join e (x ∷ es) h =
    split-append b';' e (join (x ∷ es)) h.0 refl ∙ ap (λ r. e ∷ r) (split-join x es h.1)

within_limit : (limit a b : ℕ) → a + suc (suc b) ≤ limit → leb limit (a + 1) ≡ false
within_limit limit a b h = ground (arith, h)

parse_entries-map :
    {A : Type 0} {B : Type 0} (limit : ℕ) (parse : Bytes → Option A) (text : B → Bytes) (to : B → A)
    (acc : List A) (ms : List B)
    → All (λ m. parse (text m) ≡ some (to m)) ms
    → length acc + length ms ≤ limit
    → parse_entries limit parse acc (map text ms) ≡ acc ++ map to ms
unfolding parse_entries
parse_entries-map limit parse text to acc [] h n = sym (append-nil acc)
parse_entries-map limit parse text to acc (m ∷ []) h n =
    elim (Bool-cases (leb limit (length (acc ++ to m ∷ [])))) [
      | inl b ↦ rw (h.0, b, parse_entries) refl
      | inr b ↦ rw (h.0, b, parse_entries) refl
    ]
parse_entries-map limit parse text to acc (m ∷ x ∷ ms) h n =
    let len = length-append acc (to m ∷ []) in
    let b : leb limit (length (acc ++ to m ∷ [])) ≡ false =
      rw len (within_limit limit (length acc) (length ms) n) in
    rw (h.0, b, parse_entries)
      (parse_entries-map limit parse text to (acc ++ to m ∷ []) (x ∷ ms) h.1 (omega (arith, n, len))
        ∙ append_assoc acc (to m ∷ []) (to x ∷ map to ms))

-- The pairs that the run passes on.
abbrev pub mapped : Bytes → Bytes → Bytes → Bytes → Bool → List (Bytes × Bytes)
mapped docker_project host_project original claude_config fresh =
    (if equal docker_project host_project then [] else (docker_project, host_project) ∷ [])
    ++ ((if is_wsl_match original then (original, host_project) ∷ [] else [])
        ++ (if fresh then [] else (map to_slash claude_config, codes "/ccbox/.claude") ∷ []))

path_mappings-mapped :
    (docker_project host_project original claude_config : Bytes) (fresh : Bool)
    → path_mappings docker_project host_project original claude_config fresh
      ≡ map entry (mapped docker_project host_project original claude_config fresh)
unfolding path_mappings
path_mappings-mapped d h o c true = elim (Bool-cases (equal d h)) [
  | inl p ↦ elim (Bool-cases (is_wsl_match o)) [ inl q ↦ rw (p, q) refl | inr q ↦ rw (p, q) refl ]
  | inr p ↦ elim (Bool-cases (is_wsl_match o)) [ inl q ↦ rw (p, q) refl | inr q ↦ rw (p, q) refl ]
]
path_mappings-mapped d h o c false = elim (Bool-cases (equal d h)) [
  | inl p ↦ elim (Bool-cases (is_wsl_match o)) [ inl q ↦ rw (p, q) refl | inr q ↦ rw (p, q) refl ]
  | inr p ↦ elim (Bool-cases (is_wsl_match o)) [ inl q ↦ rw (p, q) refl | inr q ↦ rw (p, q) refl ]
]

length-mapped :
    (docker_project host_project original claude_config : Bytes) (fresh : Bool)
    → length (mapped docker_project host_project original claude_config fresh) ≤ max_mappings
length-mapped d h o c fresh = ground arith

parse_path_map-split :
    (s : Bytes) → parse_path_map s ≡ parse_entries max_mappings parse_entry [] (split b';' s)
unfolding parse_path_map parse_entries
parse_path_map-split [] = refl
parse_path_map-split (c ∷ s) = refl

-- The mapping of a pair.
abbrev pub mapping : Bytes × Bytes → PathMapping
mapping (from, to) = make_mapping from to

All-entry :
    (ms : List (Bytes × Bytes))
    → All IsClean ms
    → All (λ m. parse_entry (entry m) ≡ some (mapping m)) ms
All-entry [] h = tt
All-entry (m ∷ ms) h = (parse_entry-entry m h.0, All-entry ms h.1)

All-Without : (ms : List (Bytes × Bytes)) → All IsClean ms → All (Without b';') (map entry ms)
All-Without [] h = tt
All-Without (m ∷ ms) h = (entry-Without m h.0, All-Without ms h.1)

join-parse :
    (ms : List (Bytes × Bytes))
    → All IsClean ms
    → length ms ≤ max_mappings
    → parse_path_map (join (map entry ms)) ≡ map mapping ms
unfolding join parse_path_map
join-parse [] h n = refl
join-parse (m ∷ ms) h n =
    parse_path_map-split (join (map entry (m ∷ ms)))
    ∙ ap (parse_entries max_mappings parse_entry [])
        (split-join (entry m) (map entry ms) (All-Without (m ∷ ms) h))
    ∙ parse_entries-map max_mappings parse_entry entry mapping [] (m ∷ ms) (All-entry (m ∷ ms) h)
        (omega (arith, n))

-- The text that a run passes in CCBOX_PATH_MAP is parsed by the file system as the mappings that the
-- run meant, in their order, if no path in it has a semicolon or a backslash or ends with a slash, the
-- paths that are mapped have two bytes at least, begin with a visible ASCII character and have no colon
-- but a drive's, and the paths that they are mapped to end with such a character.
pub path_mappings-parse_path_map :
    (docker_project host_project original claude_config : Bytes) (fresh : Bool)
    → All IsClean (mapped docker_project host_project original claude_config fresh)
    → parse_path_map (join (path_mappings docker_project host_project original claude_config fresh))
      ≡ map mapping (mapped docker_project host_project original claude_config fresh)
path_mappings-parse_path_map d h o c fresh a =
    ap (λ es. parse_path_map (join es)) (path_mappings-mapped d h o c fresh)
    ∙ join-parse (mapped d h o c fresh) a (length-mapped d h o c fresh)
