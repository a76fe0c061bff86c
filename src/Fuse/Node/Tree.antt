-- ===== src/Fuse/Node/Tree.antt =====
-- internal/fuse/node.go: the calls that look a node up, describe it, list it and open it.
use ccbox.Common.{
  ℕ, Bool, true, false, ◌&&◌, ◌||◌, Option, none, some, List, [], ◌∷◌, ◌++◌, ltb, ◌==◌,
  if◌then◌else◌, Bytes, codes, equal, strip_prefix, Outcome,
}
use ccbox.Fuse.Config.{DirMapping}
use ccbox.Fuse.Config.Load.{needs_transform}
use ccbox.Fuse.PathUtil.{get_source_path}
use ccbox.Fuse.Node.Kernel.{
  Kernel, Stat, FileInfo, Reply, ok, err, crash, Root, Node, FileHandle, State, Action, pure, fail,
  ◌>>=◌, ◌>>◌, attempt, lift, look, call, enoent, rcache_lookup, scache_lookup, neg_lookup,
  neg_insert,
}
use ccbox.Fuse.Node.Handle.{with_size}

-- `n.Path(n.Root())` and a name, if there is one, behind a slash.
unfoldable pub child_path : Bytes → Bytes → Bytes
child_path p [] = p
child_path [] (c ∷ name) = c ∷ name
child_path (x ∷ p) (c ∷ name) = (x ∷ p) ++ b'/' ∷ c ∷ name

unfoldable pub fuse_path : Node → Bytes → Bytes
fuse_path n name = b'/' ∷ child_path n.path name

unfoldable pub source_path : Root → Node → Bytes → Outcome Bytes
source_path r n name = get_source_path r.source_dir (fuse_path n name) r.config.dir_mappings

-- The kind of a directory entry: `S_IFREG`, `S_IFDIR`, `S_IFLNK`.
pub data EntryMode : Type 0 where
  reg_entry dir_entry link_entry : EntryMode

pub record DirEntry : Type 0 where
  pub name : Bytes
  pub mode : EntryMode

unfoldable pub entry_mode : FileInfo → EntryMode
entry_mode e = if e.is_dir then dir_entry else if e.is_symlink then link_entry else reg_entry

-- `nativeExists[name]`
unfoldable pub has_name : Bytes → List FileInfo → Bool
unfolding equal
has_name x [] = false
has_name x (e ∷ es) = equal e.name x || has_name x es

-- The loop over the mappings: the name that is shown, or none where the entry is skipped.
unfoldable pub shown_name : List FileInfo → List DirMapping → Bytes → Option Bytes
shown_name all [] name = some name
shown_name all (d ∷ ds) name =
    let later = shown_name all ds name in
    if equal name d.native_name
    then some d.container_name
    else if equal name d.container_name && has_name d.native_name all
    then none
    else later

-- Files that the kernel made of open files that were unlinked.
unfoldable pub is_hidden : Bytes → Bool
is_hidden name = elim (strip_prefix (codes ".fuse_hidden") name) [ none ↦ false | some rest ↦ true ]

unfoldable pub list_entry : List FileInfo → List DirMapping → FileInfo → Option DirEntry
list_entry all ds e = if is_hidden e.name then none else elim (shown_name all ds e.name) [
  | none ↦ none
  | some name ↦ some (record { name = name; mode = entry_mode e })
]

unfoldable pub list_entries : List FileInfo → List DirMapping → List FileInfo → List DirEntry
unfolding list_entry
list_entries all ds [] = []
list_entries all ds (e ∷ es) = elim (list_entry all ds e) [
  | none ↦ list_entries all ds es
  | some entry ↦ entry ∷ list_entries all ds es
]

-- The flags of an open file: none, `FOPEN_KEEP_CACHE`, `FOPEN_DIRECT_IO`.
pub data OpenFlags : Type 0 where
  no_flags keep_cache direct_io : OpenFlags

module _ (k : Kernel) where
  -- The attributes, with the size of the transformed content where it is known.
  unfoldable pub cached_attr : Root → Bytes → Bytes → Stat → Action (State k) Stat
  unfolding with_size
  cached_attr r fpath fpath_seen st =
      if st.is_reg && ltb 0 st.size && needs_transform k.to_lower r.config fpath_seen
      then (do found ← rcache_lookup k fpath st; pure (with_size st found))
      else pure st

  -- The answer to a failed `Lstat`.
  unfoldable pub missing : {A : Type 0} → Bytes → ℕ → Action (State k) A
  missing fpath e = if e == enoent then (do neg_insert k fpath; fail e) else fail e

  -- The answer to `Lstat`.
  unfoldable pub resolved : Root → Bytes → Bytes → Reply Stat → Action (State k) Stat
  resolved r fpath fpath_seen (ok st) = cached_attr r fpath fpath_seen st
  resolved r fpath fpath_seen (err e) = missing fpath e
  resolved r fpath fpath_seen crash = λ s. (crash, s)

  unfoldable pub lookup : Root → Node → Bytes → Action (State k) (Node × Stat)
  unfolding resolved
  lookup r n name = do
    fpath ← lift (source_path r n name)
    gone ← neg_lookup k fpath
    if gone then fail enoent else (do
      found ← attempt (look k (λ w. k.lstat w fpath))
      attr ← resolved r fpath (fuse_path n name) found
      pure (record { path = child_path n.path name }, attr))

  unfoldable pub getattr : Root → Node → Action (State k) Stat
  unfolding resolved
  getattr r n = do
    fpath ← lift (source_path r n [])
    gone ← neg_lookup k fpath
    if gone then fail enoent else (do
      found ← attempt (look k (λ w. k.lstat w fpath))
      resolved r fpath (fuse_path n []) found)

  unfoldable pub readdir : Root → Node → Action (State k) (List DirEntry)
  unfolding list_entries
  readdir r n = do
    fpath ← lift (source_path r n [])
    entries ← look k (λ w. k.readdir w fpath)
    pure (list_entries entries r.config.dir_mappings entries)

  -- The flags, by what the caches know of the file.
  unfoldable pub flags_of : FileHandle → Reply Stat → Action (State k) OpenFlags
  flags_of fh (ok st) = do
    content ← rcache_lookup k fh.source_path st
    skip ← scache_lookup k fh.source_path st
    pure (elim content [ some d ↦ keep_cache | none ↦ if skip then keep_cache else direct_io ])
  flags_of fh (err e) = pure direct_io
  flags_of fh crash = pure direct_io

  unfoldable pub open_flags : FileHandle → Action (State k) OpenFlags
  unfolding flags_of
  open_flags fh = do found ← attempt (look k (λ w. k.fstat w fh.fd)); flags_of fh found

  unfoldable pub open_node : Root → Node → ℕ → Action (State k) (FileHandle × OpenFlags)
  open_node r n flags = do
    fpath ← lift (source_path r n [])
    fd ← call k (λ w. k.open_file w fpath flags 0)
    let transforms = needs_transform k.to_lower r.config (fuse_path n [])
    let fh : FileHandle = record { fd = fd; needs_transform = transforms; source_path = fpath }
    if transforms then (do flags ← open_flags fh; pure (fh, flags)) else pure (fh, no_flags)
