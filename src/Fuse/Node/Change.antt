-- ===== src/Fuse/Node/Change.antt =====
-- internal/fuse/node.go: the calls that create, remove, rename and change nodes.
use ccbox.Common.{
  ℕ, Bool, true, false, not, ◌&&◌, Option, none, some, List, [], ◌∷◌, ltb, ◌==◌, if◌then◌else◌,
  Bytes,
}
use ccbox.Fuse.Cache.Read.{rcache_max_size}
use ccbox.Fuse.Config.{PathMapping}
use ccbox.Fuse.Config.Load.{needs_transform}
use ccbox.Fuse.Transform.{transform_to_host}
use ccbox.Paths.Defs.{contains_bytes}
use ccbox.Fuse.Node.Kernel.{
  Kernel, Stat, Reply, ok, err, crash, Root, Node, FileHandle, State, Action, pure, fail, ◌>>=◌,
  ◌>>◌, attempt, finally, lift, look, call, einval, rcache_invalidate, scache_invalidate,
  neg_invalidate,
}
use ccbox.Fuse.Node.Tree.{OpenFlags, no_flags, direct_io, child_path, fuse_path, source_path}

abbrev pub max_path_len : ℕ
max_path_len = 4096

unfoldable pub no_paths : List PathMapping → Bool
no_paths [] = true
no_paths (m ∷ ms) = false

-- The attributes that a client asks to set.
pub record SetAttrIn : Type 0 where
  pub mode : Option ℕ
  pub uid : Option ℕ
  pub gid : Option ℕ
  pub size : Option ℕ
  pub atime : Option ℕ
  pub mtime : Option ℕ

module _ (k : Kernel) where
  -- The caller is made the owner, if there is one; the error is dropped.
  unfoldable pub own : (k.World → ℕ → ℕ → k.World × Reply (Unit {0})) → Action (State k) (Unit {0})
  own chown (w, c) = elim (k.caller w) [
    | none ↦ (ok tt, (w, c))
    | some (uid, gid) ↦ (ok tt, ((chown w uid gid).0, c))
  ]

  -- The new child with its attributes.
  unfoldable pub child_of : Node → Bytes → Bytes → Action (State k) (Node × Stat)
  child_of n name fpath = do
    st ← look k (λ w. k.lstat w fpath)
    pure (record { path = child_path n.path name }, st)

  -- What is known of the new file; without its attributes it is closed.
  unfoldable pub created :
      Root
      → Node
      → Bytes
      → Bytes
      → ℕ
      → Reply Stat
      → Action (State k) (Node × Stat × FileHandle × OpenFlags)
  created r n name fpath fd (ok st) =
      let transforms = needs_transform k.to_lower r.config (fuse_path n name) in
      pure (
        record { path = child_path n.path name },
        st,
        record { fd = fd; needs_transform = transforms; source_path = fpath },
        (if transforms then direct_io else no_flags),
      )
  created r n name fpath fd (err e) = λ (w, c). (err e, (k.close w fd, c))
  created r n name fpath fd crash = λ s. (crash, s)

  -- `flags|O_CREAT` is part of what the kernel's `open_file` is given here.
  unfoldable pub create :
      Root → Node → Bytes → ℕ → ℕ → Action (State k) (Node × Stat × FileHandle × OpenFlags)
  unfolding own created
  create r n name flags mode = do
    fpath ← lift (source_path r n name)
    neg_invalidate k fpath
    fd ← call k (λ w. k.open_file w fpath flags mode)
    own (λ w uid gid. k.fchown w fd uid gid)
    found ← attempt (look k (λ w. k.fstat w fd))
    created r n name fpath fd found

  unfoldable pub mkdir : Root → Node → Bytes → ℕ → Action (State k) (Node × Stat)
  unfolding own child_of
  mkdir r n name mode = do
    fpath ← lift (source_path r n name)
    neg_invalidate k fpath
    call k (λ w. k.mkdir w fpath mode)
    own (λ w uid gid. k.chown w fpath uid gid)
    child_of n name fpath

  unfoldable pub unlink : Root → Node → Bytes → Action (State k) (Unit {0})
  unlink r n name = do
    fpath ← lift (source_path r n name)
    rcache_invalidate k fpath
    call k (λ w. k.unlink w fpath)

  unfoldable pub rmdir : Root → Node → Bytes → Action (State k) (Unit {0})
  rmdir r n name = do fpath ← lift (source_path r n name); call k (λ w. k.rmdir w fpath)

  -- What was rewritten, at 0, and the file cut to what was written.
  unfoldable pub replace_content : ℕ → Option Bytes → Action (State k) (Unit {0})
  replace_content fd none = pure tt
  replace_content fd (some text) = do
    nw ← call k (λ w. k.pwrite w fd text 0)
    attempt (call k (λ w. k.ftruncate w fd nw))
    pure tt

  -- The rewriting of an open file in place; what fails ends it.
  unfoldable pub rewrite_file : Root → ℕ → Stat → Action (State k) (Unit {0})
  rewrite_file r fd st = do
    buf ← look k (λ w. k.pread w fd st.size 0)
    text ← lift (transform_to_host buf r.config.path_mappings r.config.dir_mappings)
    replace_content fd text

  -- `st.Mode&syscall.S_IFREG == 0 || st.Size == 0 || st.Size > RCacheMaxSize`
  abbrev rewritable : Stat → Bool
  rewritable st = st.is_reg && not (st.size == 0) && not (ltb rcache_max_size st.size)

  unfoldable pub post_rename_transform : Root → Bytes → Action (State k) (Unit {0})
  unfolding rewrite_file
  post_rename_transform r path = do
    st ← look k (λ w. k.stat w path)
    if rewritable st
        then (do
          fd ← call k (λ w. k.open_file w path 2 0)
          finally (rewrite_file r fd st) (λ (w, c). (ok tt, (k.close w fd, c))))
        else pure tt

  -- An error behind the rename is not reported, a panic is.
  unfoldable pub quietly : Action (State k) (Unit {0}) → Action (State k) (Unit {0})
  quietly m = do r ← attempt m; pure tt

  unfoldable pub rename : Root → Node → Bytes → Node → Bytes → ℕ → Action (State k) (Unit {0})
  unfolding post_rename_transform quietly no_paths
  rename r n name np new_name flags = if not (flags == 0) then fail einval else (do
    old_path ← lift (source_path r n name)
    new_path ← lift (source_path r np new_name)
    neg_invalidate k new_path
    rcache_invalidate k old_path
    rcache_invalidate k new_path
    scache_invalidate k old_path
    scache_invalidate k new_path
    call k (λ w. k.rename w old_path new_path)
    if not (no_paths r.config.path_mappings)
          && needs_transform k.to_lower r.config (fuse_path np new_name)
          && not (needs_transform k.to_lower r.config (fuse_path n name))
        then quietly (post_rename_transform r new_path)
        else pure tt)

  unfoldable pub symlink : Root → Node → Bytes → Bytes → Action (State k) (Node × Stat)
  unfolding own child_of
  symlink r n target name = do
    fpath ← lift (source_path r n name)
    call k (λ w. k.symlink w target fpath)
    own (λ w uid gid. k.lchown w fpath (some uid) (some gid))
    child_of n name fpath

  -- At most `MaxPathLen` bytes of the target.
  unfoldable pub readlink : Root → Node → Action (State k) Bytes
  readlink r n = do fpath ← lift (source_path r n []); look k (λ w. k.readlink w fpath max_path_len)

  unfoldable pub link : Root → Node → Node → Bytes → Action (State k) (Node × Stat)
  unfolding child_of
  link r n target name = do
    target_path ← lift (source_path r target [])
    link_path ← lift (source_path r n name)
    call k (λ w. k.link w target_path link_path)
    child_of n name link_path

  unfoldable pub set_mode : Bytes → Option ℕ → Action (State k) (Unit {0})
  set_mode fpath none = pure tt
  set_mode fpath (some mode) = call k (λ w. k.chmod w fpath mode)

  -- An owner that is not given is left as it is: -1, or `0xFFFFFFFF`.
  unfoldable pub set_owner : Bytes → Option ℕ → Option ℕ → Action (State k) (Unit {0})
  set_owner fpath none none = pure tt
  set_owner fpath uid gid = call k (λ w. k.lchown w fpath uid gid)

  unfoldable pub set_size : Bytes → Option FileHandle → Option ℕ → Action (State k) (Unit {0})
  set_size fpath fh none = pure tt
  set_size fpath none (some size) = do
    rcache_invalidate k fpath
    call k (λ w. k.truncate w fpath size)
  set_size fpath (some fh) (some size) = do
    rcache_invalidate k fpath
    call k (λ w. k.ftruncate w fh.fd size)

  -- A path with a zero byte is refused by `BytePtrFromString`.
  unfoldable pub set_times : Bytes → Option ℕ → Option ℕ → Action (State k) (Unit {0})
  set_times fpath none mtime = pure tt
  set_times fpath (some atime) mtime =
      if contains_bytes (0 ∷ []) fpath
      then fail einval
      else call k (λ w. k.utimes w fpath atime (elim mtime [ none ↦ atime | some m ↦ m ]))

  unfoldable pub setattr : Root → Node → Option FileHandle → SetAttrIn → Action (State k) Stat
  unfolding set_mode set_owner set_size set_times
  setattr r n fh in_attr = do
    fpath ← lift (source_path r n [])
    set_mode fpath in_attr.mode
    set_owner fpath in_attr.uid in_attr.gid
    set_size fpath fh in_attr.size
    set_times fpath in_attr.atime in_attr.mtime
    look k (λ w. k.lstat w fpath)

  unfoldable pub access : Root → Node → ℕ → Action (State k) (Unit {0})
  access r n mask = do fpath ← lift (source_path r n []); look k (λ w. k.access w fpath mask)
