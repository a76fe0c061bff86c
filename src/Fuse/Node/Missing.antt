-- ===== src/Fuse/Node/Missing.antt =====
-- Names that the file system remembers as missing, and the calls that make them.
use ccbox.Common.{
  ℕ, ◌≡◌, refl, ap, ◌∙◌, inl, inr, ◌&&◌, ltb, true, false, some, Bytes, equal_iff, Bool-cases,
  Option-cases, done,
}
use ccbox.Fuse.Config.Load.{needs_transform}
use ccbox.Fuse.Cache.Neg
use ccbox.Fuse.Cache.Neg.Laws.{lookup-invalidate_path}
use ccbox.Fuse.Node.Kernel.{
  Kernel, Stat, Reply, ok, err, crash, Root, Node, Caches, State, enoent, bind_reply, reply_of,
  lift, call, look, attempt, neg_lookup, neg_invalidate, rcache_lookup,
}
use ccbox.Fuse.Node.Tree.{child_path, fuse_path, source_path, cached_attr, resolved, lookup}
use ccbox.Fuse.Node.Change.{own, child_of, created, create, symlink}
use ccbox.Fuse.Node.Frame.{Keeps, bind_reply-Keeps, reply_of-Keeps}

module _ (k : Kernel) where
  pub own-Keeps : (chown : k.World → ℕ → ℕ → k.World × Reply (Unit {0})) → Keeps k (own k chown)
  unfolding own
  own-Keeps chown (w, cs) = elim (Option-cases (k.caller w)) [
    | inl e ↦ rw (e, own) refl
    | inr (caller, e) ↦ rw (e, own) refl
  ]

  pub created-Keeps :
      (r : Root) (n : Node) (name fpath : Bytes) (fd : ℕ) (found : Reply Stat)
      → Keeps k (created k r n name fpath fd found)
  unfolding created
  created-Keeps r n name fpath fd (ok st) s = refl
  created-Keeps r n name fpath fd (err e) (w, c) = refl
  created-Keeps r n name fpath fd crash s = refl

  create-neg_cache :
      (r : Root) (n : Node) (name fpath : Bytes) (flags mode : ℕ) (s : State k)
      → source_path r n name ≡ done fpath
      → (create k r n name flags mode s).1.1.neg_cache ≡ Neg.invalidate s.1.neg_cache fpath
  unfolding create neg_invalidate bind_reply lift
  create-neg_cache r n name fpath flags mode (w, cs) e =
      let cs1 : Caches = record cs { neg_cache = Neg.invalidate cs.neg_cache fpath } in
      rw e (
        ap (λ c. c.neg_cache)
          (bind_reply-Keeps k {cs = cs1} (call k (λ v. k.open_file v fpath flags mode) (w, cs1)) _
            refl
            (λ fd s.
              bind_reply-Keeps k (own k (λ v uid gid. k.fchown v fd uid gid) s) _
                (own-Keeps (λ v uid gid. k.fchown v fd uid gid) s)
                (λ u s.
                  bind_reply-Keeps k (attempt (look k (λ v. k.fstat v fd)) s) _
                    (reply_of-Keeps k _ refl) (λ found. created-Keeps r n name fpath fd found)))))

  pub child_of-Keeps : (n : Node) (name fpath : Bytes) → Keeps k (child_of k n name fpath)
  unfolding child_of
  child_of-Keeps n name fpath s = bind_reply-Keeps k _ _ refl (λ st s. refl)

  symlink-neg_cache :
      (r : Root) (n : Node) (target name fpath : Bytes) (s : State k)
      → source_path r n name ≡ done fpath
      → (symlink k r n target name s).1.1 ≡ s.1
  unfolding symlink bind_reply lift
  symlink-neg_cache r n target name fpath (w, cs) e = rw e (
      bind_reply-Keeps k {cs = cs} (call k (λ v. k.symlink v target fpath) (w, cs)) _ refl (λ u s.
        bind_reply-Keeps k (own k (λ v uid gid. k.lchown v fpath (some uid) (some gid)) s) _
          (own-Keeps (λ v uid gid. k.lchown v fpath (some uid) (some gid)) s)
          (λ u. child_of-Keeps n name fpath)))

  lookup_missing :
      (r : Root) (n : Node) (name fpath : Bytes) (s : State k)
      → source_path r n name ≡ done fpath
      → Neg.lookup s.1.neg_cache fpath (k.now s.0) ≡ true
      → (lookup k r n name s).0 ≡ err enoent
  unfolding lookup neg_lookup bind_reply lift
  lookup_missing r n name fpath (w, cs) e h = rw (e, h) refl

  cached_attr_ok :
      (r : Root) (fpath seen : Bytes) (st : Stat) (s : State k)
      → (attr : Stat) × (s1 : State k) × (cached_attr k r fpath seen st s ≡ (ok attr, s1))
  unfolding cached_attr rcache_lookup bind_reply
  cached_attr_ok r fpath seen st s =
      elim (Bool-cases (st.is_reg && ltb 0 st.size && needs_transform k.to_lower r.config seen)) [
        | inl e ↦ rw (e, cached_attr) (_, _, refl)
        | inr e ↦ rw (e, cached_attr) (_, _, refl)
      ]

  lookup_found :
      (r : Root) (n : Node) (name fpath : Bytes) (st : Stat) (s : State k)
      → source_path r n name ≡ done fpath
      → Neg.lookup s.1.neg_cache fpath (k.now s.0) ≡ false
      → k.lstat s.0 fpath ≡ ok st
      → (attr : Stat) × ((lookup k r n name s).0
          ≡ ok (record { path = child_path n.path name }, attr))
  unfolding lookup resolved neg_lookup bind_reply reply_of lift
  lookup_found r n name fpath st (w, cs) e h f =
      let (attr, s1, known) = cached_attr_ok r fpath (fuse_path n name) st (w, cs) in
      (attr, rw (e, h, f, known) refl)

-- Behind a creation of a file, whatever it replied, a name that is there is found, also one that was
-- remembered as missing.
pub lookup-create :
    (k : Kernel) (r : Root) (n : Node) (name fpath : Bytes) (flags mode : ℕ) (st : Stat)
    (s : State k)
    → source_path r n name ≡ done fpath
    → k.lstat (create k r n name flags mode s).1.0 fpath ≡ ok st
    → (attr : Stat) × ((lookup k r n name (create k r n name flags mode s).1).0
        ≡ ok (record { path = child_path n.path name }, attr))
lookup-create k r n name fpath flags mode st s e f =
    let s1 = (create k r n name flags mode s).1 in
    let now = k.now s1.0 in
    let forgotten =
      ap (λ nc. Neg.lookup nc fpath now) (create-neg_cache k r n name fpath flags mode s e)
      ∙ lookup-invalidate_path s.1.neg_cache fpath fpath now in
    lookup_found k r n name fpath st s1 e (forgotten ∙ (rw ((equal_iff fpath fpath).1 refl) refl)) f

-- Behind the making of a symbolic link, also where it succeeded, a name that the file system still
-- remembers as missing is reported as missing.
pub lookup-symlink :
    (k : Kernel) (r : Root) (n : Node) (target name fpath : Bytes) (s : State k)
    → source_path r n name ≡ done fpath
    → Neg.lookup s.1.neg_cache fpath (k.now (symlink k r n target name s).1.0) ≡ true
    → (lookup k r n name (symlink k r n target name s).1).0 ≡ err enoent
lookup-symlink k r n target name fpath s e h =
    let s1 = (symlink k r n target name s).1 in
    lookup_missing k r n name fpath s1 e (
      ap (λ cs. Neg.lookup cs.neg_cache fpath (k.now s1.0))
        (symlink-neg_cache k r n target name fpath s e)
      ∙ h)
