-- ===== src/Fuse/Node/Stays/Changes.antt =====
-- The calls that change nodes, but for a rename, leave caches that hold what readers are to see.
use ccbox.Common.{ℕ, Option, none, some, [], ◌∷◌, Bytes, Bool-cases, inl, inr}
use ccbox.Fuse.Config.{Config}
use ccbox.Paths.Defs.{contains_bytes}
use ccbox.Fuse.Node.Kernel.{Kernel, Reply, Root, Node, FileHandle, State, Action, bind_reply}
use ccbox.Fuse.Node.Change.{
  own, child_of, created, create, mkdir, unlink, rmdir, symlink, link, set_mode, set_owner,
  set_size, set_times, setattr, SetAttrIn,
}
use ccbox.Fuse.Node.Faithful.{Files, IsFaithful}
use ccbox.Fuse.Node.Missing.{own-Keeps, created-Keeps, child_of-Keeps}
use ccbox.Fuse.Node.Stays.{
  Stays, Keeps-Stays, bind_reply-Stays, reply_of-Stays, lift-Stays, neg_invalidate-Stays,
  rcache_invalidate-Stays,
}

module _ (k : Kernel) (c : Config) (files : Files) where
  bind :
      {A B : Type 0} (p : Reply A × State k) (f : A → Action (State k) B)
      → IsFaithful c files p.1.1
      → ((a : A) → Stays k c files (f a))
      → IsFaithful c files (bind_reply p f).1.1
  bind p f = bind_reply-Stays k c files p f

  own-Stays : (chown : k.World → ℕ → ℕ → k.World × Reply (Unit {0})) → Stays k c files (own k chown)
  own-Stays chown = Keeps-Stays k c files (own k chown) (own-Keeps k chown)

  child_of-Stays : (n : Node) (name fpath : Bytes) → Stays k c files (child_of k n name fpath)
  child_of-Stays n name fpath =
      Keeps-Stays k c files (child_of k n name fpath) (child_of-Keeps k n name fpath)

  pub create-Stays :
      (r : Root) (n : Node) (name : Bytes) (flags mode : ℕ)
      → Stays k c files (create k r n name flags mode)
  unfolding create
  create-Stays r n name flags mode s h = bind _ _ (lift-Stays k c files _ s h) (λ fpath s h.
      bind _ _ (neg_invalidate-Stays k c files fpath s h) (λ u s h. bind _ _ h (λ fd s h.
        bind _ _ (own-Stays (λ v uid gid. k.fchown v fd uid gid) s h) (λ u s h.
          bind _ _ (reply_of-Stays k c files _ h) (λ found.
            Keeps-Stays k c files (created k r n name fpath fd found)
              (created-Keeps k r n name fpath fd found))))))

  pub mkdir-Stays :
      (r : Root) (n : Node) (name : Bytes) (mode : ℕ) → Stays k c files (mkdir k r n name mode)
  unfolding mkdir
  mkdir-Stays r n name mode s h = bind _ _ (lift-Stays k c files _ s h) (λ fpath s h.
      bind _ _ (neg_invalidate-Stays k c files fpath s h) (λ u s h. bind _ _ h (λ u s h.
        bind _ _ (own-Stays (λ v uid gid. k.chown v fpath uid gid) s h)
          (λ u. child_of-Stays n name fpath))))

  pub symlink-Stays :
      (r : Root) (n : Node) (target name : Bytes) → Stays k c files (symlink k r n target name)
  unfolding symlink
  symlink-Stays r n target name s h = bind _ _ (lift-Stays k c files _ s h) (λ fpath s h.
      bind _ _ h (λ u s h.
        bind _ _ (own-Stays (λ v uid gid. k.lchown v fpath (some uid) (some gid)) s h)
          (λ u. child_of-Stays n name fpath)))

  pub link-Stays :
      (r : Root) (n target : Node) (name : Bytes) → Stays k c files (link k r n target name)
  unfolding link
  link-Stays r n target name s h = bind _ _ (lift-Stays k c files _ s h) (λ target_path s h.
      bind _ _ (lift-Stays k c files _ s h)
        (λ link_path s h. bind _ _ h (λ u. child_of-Stays n name link_path)))

  pub unlink-Stays : (r : Root) (n : Node) (name : Bytes) → Stays k c files (unlink k r n name)
  unfolding unlink
  unlink-Stays r n name s h =
      bind _ _ (lift-Stays k c files _ s h)
        (λ fpath s h. bind _ _ (rcache_invalidate-Stays k c files fpath s h) (λ u s h. h))

  pub rmdir-Stays : (r : Root) (n : Node) (name : Bytes) → Stays k c files (rmdir k r n name)
  unfolding rmdir
  rmdir-Stays r n name s h = bind _ _ (lift-Stays k c files _ s h) (λ fpath s h. h)

  set_mode-Stays : (fpath : Bytes) (mode : Option ℕ) → Stays k c files (set_mode k fpath mode)
  unfolding set_mode
  set_mode-Stays fpath none s h = h
  set_mode-Stays fpath (some mode) s h = h

  set_owner-Stays :
      (fpath : Bytes) (uid gid : Option ℕ) → Stays k c files (set_owner k fpath uid gid)
  unfolding set_owner
  set_owner-Stays fpath none none s h = h
  set_owner-Stays fpath none (some gid) s h = h
  set_owner-Stays fpath (some uid) gid s h = h

  set_size-Stays :
      (fpath : Bytes) (fh : Option FileHandle) (size : Option ℕ)
      → Stays k c files (set_size k fpath fh size)
  unfolding set_size
  set_size-Stays fpath fh none s h = h
  set_size-Stays fpath none (some size) s h =
      bind _ _ (rcache_invalidate-Stays k c files fpath s h) (λ u s h. h)
  set_size-Stays fpath (some fh) (some size) s h =
      bind _ _ (rcache_invalidate-Stays k c files fpath s h) (λ u s h. h)

  set_times-Stays :
      (fpath : Bytes) (atime mtime : Option ℕ) → Stays k c files (set_times k fpath atime mtime)
  unfolding set_times
  set_times-Stays fpath none mtime s h = h
  set_times-Stays fpath (some atime) mtime s h = elim (Bool-cases (contains_bytes (0 ∷ []) fpath)) [
    | inl e ↦ rw (e, set_times) h
    | inr e ↦ rw (e, set_times) h
  ]

  pub setattr-Stays :
      (r : Root) (n : Node) (fh : Option FileHandle) (a : SetAttrIn)
      → Stays k c files (setattr k r n fh a)
  unfolding setattr
  setattr-Stays r n fh a s h = bind _ _ (lift-Stays k c files _ s h) (λ fpath s h.
      bind _ _ (set_mode-Stays fpath a.mode s h) (λ u s h.
        bind _ _ (set_owner-Stays fpath a.uid a.gid s h) (λ u s h.
          bind _ _ (set_size-Stays fpath fh a.size s h)
            (λ u s h. bind _ _ (set_times-Stays fpath a.atime a.mtime s h) (λ u s h. h)))))
