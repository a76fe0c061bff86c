-- ===== src/Fuse/Node/Stays.antt =====
-- Calls that leave caches that hold what readers are to see: those that only look.
pub mod Changes
use ccbox.Common.{
  ℕ, ◌≡◌, ◌==◌, ◌%◌, refl, ap, sym, ◌∙◌, inl, inr, not, ◌&&◌, ltb, Bool, true, false, Option, none,
  some, [], if◌then◌else◌, Bytes, equal, Outcome, done, panic, timeout,
}
use mathlib.Core.Path.{subst}
use ccbox.Fuse.Config.{Config}
use ccbox.Fuse.Config.Load.{needs_transform}
use ccbox.Fuse.Cache.Read
use ccbox.Fuse.Cache.Slots.{Holds-clear_map}
use ccbox.Fuse.Node.Kernel.{
  Kernel, Stat, Reply, ok, err, crash, Root, Node, Caches, FileHandle, State, Action, pure, fail,
  enoent, bind_reply, ◌>>=◌, ◌>>◌, reply_of, lift, look, call, attempt, rcache_lookup,
  scache_lookup, neg_lookup, neg_insert, neg_invalidate, rcache_invalidate,
}
use ccbox.Fuse.Node.Handle.{getattr_fd, with_size, release, flush, fsync}
use ccbox.Fuse.Node.Tree.{
  fuse_path, source_path, cached_attr, missing, resolved, lookup, getattr, readdir, flags_of,
  open_flags, open_node,
}
use ccbox.Fuse.Node.Change.{
  own, child_of, created, create, mkdir, unlink, rmdir, symlink, readlink, link, set_mode,
  set_owner, set_size, set_times, setattr, access, SetAttrIn,
}
use ccbox.Fuse.Node.Faithful.{Files, ShowsRead, IsFaithful, rcache_lookup-IsFaithful}
use ccbox.Fuse.Node.Frame.{Keeps}
use ccbox.Fuse.Node.Missing.{own-Keeps, created-Keeps, child_of-Keeps}

module _ (k : Kernel) (c : Config) (files : Files) where
  abbrev pub Stays : {A : Type 0} → Action (State k) A → Type 0
  Stays m = (s : State k) → IsFaithful c files s.1 → IsFaithful c files (m s).1.1

  pub Keeps-Stays : {A : Type 0} (m : Action (State k) A) → Keeps k m → Stays m
  Keeps-Stays m h s f = subst (IsFaithful c files) (sym (h s)) f

  pub bind_reply-Stays :
      {A B : Type 0} (p : Reply A × State k) (f : A → Action (State k) B)
      → IsFaithful c files p.1.1
      → ((a : A) → Stays (f a))
      → IsFaithful c files (bind_reply p f).1.1
  unfolding bind_reply
  bind_reply-Stays (ok a, s) f e h = h a s e
  bind_reply-Stays (err x, s) f e h = e
  bind_reply-Stays (crash, s) f e h = e

  pub reply_of-Stays :
      {A : Type 0} (p : Reply A × State k)
      → IsFaithful c files p.1.1
      → IsFaithful c files (reply_of p).1.1
  unfolding reply_of
  reply_of-Stays (ok a, s) e = e
  reply_of-Stays (err x, s) e = e
  reply_of-Stays (crash, s) e = e

  pub lift-Stays : {A : Type 0} (o : Outcome A) → Stays (lift o)
  unfolding lift
  lift-Stays (done a) s h = h
  lift-Stays panic s h = h
  lift-Stays timeout s h = h

  if-Stays :
      {A : Type 0} (b : Bool) (m n : Action (State k) A)
      → Stays m
      → Stays n
      → Stays (if b then m else n)
  if-Stays true m n h g = h
  if-Stays false m n h g = g

  rcache_lookup-Stays : (path : Bytes) (st : Stat) → Stays (rcache_lookup k path st)
  unfolding rcache_lookup
  rcache_lookup-Stays path st (w, cs) h =
      rcache_lookup-IsFaithful c files cs path st.mtime_sec st.mtime_ns h

  scache_lookup-Stays : (path : Bytes) (st : Stat) → Stays (scache_lookup k path st)
  unfolding scache_lookup
  scache_lookup-Stays path st s h = h

  neg_lookup-Stays : (path : Bytes) → Stays (neg_lookup k path)
  unfolding neg_lookup
  neg_lookup-Stays path s h = h

  neg_insert-Stays : (path : Bytes) → Stays (neg_insert k path)
  unfolding neg_insert
  neg_insert-Stays path s h = record { contents = h.contents; skips = h.skips }

  pub neg_invalidate-Stays : (path : Bytes) → Stays (neg_invalidate k path)
  unfolding neg_invalidate
  neg_invalidate-Stays path s h = record { contents = h.contents; skips = h.skips }

  pub rcache_invalidate-Stays : (path : Bytes) → Stays (rcache_invalidate k path)
  unfolding rcache_invalidate Read.invalidate
  rcache_invalidate-Stays path (w, cs) h = record {
    contents =
        Holds-clear_map (ShowsRead c files) (ShowsRead c files) (λ e. equal e.path path)
          cs.rcache.slots (λ e other shown. shown) h.contents;
    skips = h.skips;
  }

  cached_attr-Stays :
      (r : Root) (fpath seen : Bytes) (st : Stat) → Stays (cached_attr k r fpath seen st)
  unfolding cached_attr
  cached_attr-Stays r fpath seen st =
      if-Stays (st.is_reg && ltb 0 st.size && needs_transform k.to_lower r.config seen)
        (rcache_lookup k fpath st >>= λ found. pure (with_size st found)) (pure st)
        (λ s h. bind_reply-Stays _ _ (rcache_lookup-Stays fpath st s h) (λ found s h. h)) (λ s h. h)

  missing-Stays : (A : Type 0) (fpath : Bytes) (e : ℕ) → Stays (missing k {A = A} fpath e)
  unfolding missing
  missing-Stays A fpath e =
      if-Stays (e == enoent) (neg_insert k fpath >> fail e) (fail e)
        (λ s h. bind_reply-Stays _ _ (neg_insert-Stays fpath s h) (λ u s h. h)) (λ s h. h)

  resolved-Stays :
      (r : Root) (fpath seen : Bytes) (found : Reply Stat) → Stays (resolved k r fpath seen found)
  unfolding resolved
  resolved-Stays r fpath seen (ok st) = cached_attr-Stays r fpath seen st
  resolved-Stays r fpath seen (err e) = missing-Stays Stat fpath e
  resolved-Stays r fpath seen crash = λ s h. h

  pub lookup-Stays : (r : Root) (n : Node) (name : Bytes) → Stays (lookup k r n name)
  unfolding lookup
  lookup-Stays r n name s h = bind_reply-Stays _ _ (lift-Stays _ s h) (λ fpath s h.
      bind_reply-Stays _ _ (neg_lookup-Stays fpath s h) (λ gone.
        if-Stays gone _ _ (λ s h. h)
          (λ s h. bind_reply-Stays _ _ (reply_of-Stays _ h) (λ found s h.
            bind_reply-Stays _ _ (resolved-Stays r fpath (fuse_path n name) found s h)
              (λ attr s h. h)))))

  pub getattr-Stays : (r : Root) (n : Node) → Stays (getattr k r n)
  unfolding getattr
  getattr-Stays r n s h = bind_reply-Stays _ _ (lift-Stays _ s h) (λ fpath s h.
      bind_reply-Stays _ _ (neg_lookup-Stays fpath s h) (λ gone.
        if-Stays gone _ _ (λ s h. h)
          (λ s h.
            bind_reply-Stays _ _ (reply_of-Stays _ h)
              (λ found. resolved-Stays r fpath (fuse_path n []) found))))

  pub getattr_fd-Stays : (fh : FileHandle) → Stays (getattr_fd k fh)
  unfolding getattr_fd
  getattr_fd-Stays fh s h = bind_reply-Stays _ _ h (λ st.
      if-Stays (fh.needs_transform && ltb 0 st.size) _ _
        (λ s h. bind_reply-Stays _ _ (rcache_lookup-Stays fh.source_path st s h) (λ found s h. h))
        (λ s h. h))

  flags_of-Stays : (fh : FileHandle) (found : Reply Stat) → Stays (flags_of k fh found)
  unfolding flags_of
  flags_of-Stays fh (ok st) s h =
      bind_reply-Stays _ _ (rcache_lookup-Stays fh.source_path st s h) (λ content s h.
        bind_reply-Stays _ _ (scache_lookup-Stays fh.source_path st s h) (λ skip s h. h))
  flags_of-Stays fh (err e) s h = h
  flags_of-Stays fh crash s h = h

  open_flags-Stays : (fh : FileHandle) → Stays (open_flags k fh)
  unfolding open_flags
  open_flags-Stays fh s h = bind_reply-Stays _ _ (reply_of-Stays _ h) (flags_of-Stays fh)

  pub open_node-Stays : (r : Root) (n : Node) (flags : ℕ) → Stays (open_node k r n flags)
  unfolding open_node
  open_node-Stays r n flags s h = bind_reply-Stays _ _ (lift-Stays _ s h) (λ fpath s h.
      bind_reply-Stays _ _ h (λ fd.
        if-Stays (needs_transform k.to_lower r.config (fuse_path n [])) _ _
          (λ s h. bind_reply-Stays _ _ (open_flags-Stays _ s h) (λ flags s h. h)) (λ s h. h)))
