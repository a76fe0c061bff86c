-- ===== src/Fuse/Config.antt =====
-- internal/fuse/config.go: the mappings between host and container names, and how they are read
-- from the environment. Byte classes of Go's `unicode` package are written out for one byte.
pub mod Mappings
pub mod Load
use mathlib.Core.List.{reverse}
use ccbox.Common.{
  ℕ, ◌+◌, ◌≡◌, Bool, true, false, not, ◌&&◌, ◌||◌, Option, none, some, List, [], ◌∷◌, ◌++◌, map,
  leb, ltb, ◌==◌, if◌then◌else◌, length, drop, Bytes, codes, equal, strip_prefix, next_byte,
}

abbrev pub max_mappings : ℕ
max_mappings = 32

abbrev pub max_dir_mappings : ℕ
max_dir_mappings = 32

abbrev pub max_extensions : ℕ
max_extensions = 16

pub record PathMapping : Type 0 where
  pub from : Bytes
  pub to : Bytes
  pub drive : ℕ
  pub is_unc : Bool
  pub is_wsl : Bool

pub record DirMapping : Type 0 where
  pub container_name : Bytes
  pub native_name : Bytes

pub record Config : Type 0 where
  pub source_dir : Bytes
  pub path_mappings : List PathMapping
  pub dir_mappings : List DirMapping
  pub extensions : List Bytes
  pub trace_level : ℕ

abbrev pub within : ℕ → ℕ → ℕ → Bool
within lo hi c = leb lo c && leb c hi

unfoldable pub to_lower_byte : ℕ → ℕ
to_lower_byte b = if within b'A' b'Z' b then b + 32 else b

-- `unicode.IsLetter` at a rune below 256: the letters of Latin-1.
unfoldable pub is_alpha : ℕ → Bool
is_alpha b =
    within b'A' b'Z' b
    || within b'a' b'z' b
    || b == 0xAA
    || b == 0xB5
    || b == 0xBA
    || within 0xC0 0xD6 b
    || within 0xD8 0xF6 b
    || within 0xF8 0xFF b

-- `unicode.IsSpace` at a rune below 256.
unfoldable pub is_space : ℕ → Bool
is_space b = within 9 13 b || b == b' ' || b == 0x85 || b == 0xA0

-- `strings.Split` at one byte.
cons_head : ℕ → List Bytes → List Bytes
cons_head c [] = (c ∷ []) ∷ []
cons_head c (w ∷ ws) = (c ∷ w) ∷ ws

unfoldable pub split : ℕ → Bytes → List Bytes
unfolding cons_head
split sep [] = [] ∷ []
split sep (c ∷ s) = let ws = split sep s in if c == sep then [] ∷ ws else cons_head c ws

-- `strings.Index` of one byte, with the text before it and the text behind it.
unfoldable pub cut : ℕ → Bytes → Option (Bytes × Bytes)
cut sep [] = none
cut sep (c ∷ s) =
    if c == sep
    then some ([], s)
    else elim (cut sep s) [ none ↦ none | some (before, after) ↦ some (c ∷ before, after) ]

-- `strings.TrimSpace`: the white space of Unicode in its encoding, one, two or three bytes long.
abbrev pub space1 : ℕ → Bool
space1 a = within 9 13 a || a == b' '

abbrev pub space2 : ℕ → ℕ → Bool
space2 a b = a == 0xC2 && (b == 0x85 || b == 0xA0)

abbrev pub space3 : ℕ → ℕ → ℕ → Bool
space3 a b c =
    (a == 0xE1 && b == 0x9A && c == 0x80)
    || (a == 0xE2 && b == 0x80 && (within 0x80 0x8A c || within 0xA8 0xA9 c || c == 0xAF))
    || (a == 0xE2 && b == 0x81 && c == 0x9F)
    || (a == 0xE3 && b == 0x80 && c == 0x80)

unfoldable pub trim_by : (ℕ → ℕ → Bool) → (ℕ → ℕ → ℕ → Bool) → Bytes → Bytes
trim_by two three [] = []
trim_by two three (a ∷ []) = if space1 a then [] else a ∷ []
trim_by two three (a ∷ b ∷ []) =
    let behind = trim_by two three (b ∷ []) in
    if space1 a then behind else if two a b then [] else a ∷ b ∷ []
trim_by two three (a ∷ b ∷ c ∷ s) =
    let behind1 = trim_by two three (b ∷ c ∷ s) in
    let behind2 = trim_by two three (c ∷ s) in
    let behind3 = trim_by two three s in
    if space1 a
    then behind1
    else if two a b
    then behind2
    else if three a b c
    then behind3
    else a ∷ b ∷ c ∷ s

unfoldable pub trim_space : Bytes → Bytes
unfolding trim_by
trim_space s =
    reverse
      (trim_by (λ a b. space2 b a) (λ a b c. space3 c b a) (reverse (trim_by space2 space3 s)))

-- `for len(path) > 1 && path[len(path)-1] == '/'`, on the reversed text.
unfoldable pub strip_slashes : Bytes → Bytes
strip_slashes [] = []
strip_slashes (c ∷ []) = c ∷ []
strip_slashes (c ∷ d ∷ s) =
    let shorter = strip_slashes (d ∷ s) in if c == b'/' then shorter else c ∷ d ∷ s

abbrev pub to_slash : ℕ → ℕ
to_slash c = if c == b'\\' then b'/' else c

unfoldable pub normalize_path : Bytes → Bytes
unfolding strip_slashes
normalize_path path = reverse (strip_slashes (reverse (map to_slash path)))

-- `len(s) > 1 && s[1] == ':'`
unfoldable pub second_is_colon : Bytes → Bool
second_is_colon (a ∷ b ∷ s) = b == b':'
second_is_colon _ = false

-- `strings.HasPrefix(from, "/mnt/") && len(from) > 5 && isAlpha(from[5])`: the byte `from[5]`.
unfoldable pub wsl_drive : Bytes → Option ℕ
wsl_drive s = elim (strip_prefix (codes "/mnt/") s) [
  | some (d ∷ rest) ↦ if is_alpha d then some d else none
  | _ ↦ none
]

unfoldable pub is_unc_path : Bytes → Bool
is_unc_path s = elim (strip_prefix (codes "//") s) [ none ↦ false | some rest ↦ true ]

-- The mapping that the body of the loop builds from the two sides of the separator.
unfoldable pub make_mapping : Bytes → Bytes → PathMapping
unfolding second_is_colon is_unc_path wsl_drive is_alpha to_lower_byte strip_prefix
make_mapping from to = record {
  from = from;
  to = to;
  drive = elim (wsl_drive from) [
    | some d ↦ to_lower_byte d
    | none ↦ if second_is_colon from then to_lower_byte (next_byte from) else 0
  ];
  is_unc = is_unc_path from;
  is_wsl = elim (wsl_drive from) [ none ↦ false | some d ↦ true ];
}

-- The separator is the first colon, behind a drive letter's own colon: the two sides of it.
unfoldable pub split_entry : Bytes → Option (Bytes × Bytes)
unfolding second_is_colon cut
split_entry (a ∷ b ∷ s) =
    if second_is_colon (a ∷ b ∷ s)
    then elim (cut b':' s) [ none ↦ none | some (before, after) ↦ some (a ∷ b ∷ before, after) ]
    else cut b':' (a ∷ b ∷ s)
split_entry s = cut b':' s

-- One entry of the map; `none` is `continue`.
unfoldable pub mapping_of : Option (Bytes × Bytes) → Option PathMapping
mapping_of none = none
mapping_of (some (from, to)) = some (make_mapping (normalize_path from) (normalize_path to))

unfoldable pub trimmed_entry : Bytes → Option PathMapping
unfolding mapping_of split_entry
trimmed_entry [] = none
trimmed_entry (c ∷ s) = mapping_of (split_entry (c ∷ s))

unfoldable pub parse_entry : Bytes → Option PathMapping
unfolding trim_space trimmed_entry normalize_path make_mapping
parse_entry raw = trimmed_entry (trim_space raw)

-- The loop over the entries, with the mappings so far; it breaks at the limit.
module _ {A : Type 0} (limit : ℕ) (parse : Bytes → Option A) where
  unfoldable pub parse_entries : List A → List Bytes → List A
  parse_entries acc [] = acc
  parse_entries acc (e ∷ es) = elim (parse e) [
    | none ↦ parse_entries acc es
    | some m ↦
        let longer = parse_entries (acc ++ m ∷ []) es in
        if leb limit (length (acc ++ m ∷ [])) then acc ++ m ∷ [] else longer
  ]

unfoldable pub parse_path_map : Bytes → List PathMapping
unfolding parse_entry parse_entries split
parse_path_map [] = []
parse_path_map (c ∷ s) = parse_entries max_mappings parse_entry [] (split b';' (c ∷ s))

unfoldable pub parse_dir_entry : Bytes → Option DirMapping
unfolding trim_space cut
parse_dir_entry raw = elim (trim_space raw) [
  | [] ↦ none
  | c ∷ s ↦ elim (cut b':' (c ∷ s)) [
    | none ↦ none
    | some (before, after) ↦ some (record { container_name = before; native_name = after })
  ]
]

unfoldable pub parse_dir_map : Bytes → List DirMapping
unfolding parse_dir_entry parse_entries split
parse_dir_map [] = []
parse_dir_map (c ∷ s) = parse_entries max_dir_mappings parse_dir_entry [] (split b';' (c ∷ s))

unfoldable pub parse_extension : Bytes → Option Bytes
unfolding trim_space
parse_extension raw = elim (trim_space raw) [
  | [] ↦ none
  | c ∷ s ↦ some (if c == b'.' then c ∷ s else b'.' ∷ c ∷ s)
]

unfoldable pub parse_extensions : Bytes → List Bytes
unfolding parse_extension parse_entries split
parse_extensions [] = codes ".json" ∷ codes ".jsonl" ∷ []
parse_extensions (c ∷ s) = parse_entries max_extensions parse_extension [] (split b',' (c ∷ s))
