-- ===== src/Fuse/Node/Faithful.antt =====
-- What the caches hold is what a reader is to see.
use ccbox.Common.{
  ℕ, ◌≡◌, refl, inl, inr, true, false, some, arith, ltb, ◌%◌, length, Bytes, equal_iff, Bool-cases,
  Option-cases, Outcome, done, ◌>>=◌,
}
use ccbox.Fuse.Config.{Config}
use ccbox.Fuse.Cache.Read
use ccbox.Fuse.Cache.Read.{
  RcacheEntry, ReadCache, rcache_max_size, max_uint64, next_seq, find_lru, touch,
}
use ccbox.Fuse.Cache.Read.Trace.{touch-Touched, found-Holds, found-answer, matches-eq}
use ccbox.Fuse.Cache.Skip
use ccbox.Fuse.Cache.Skip.{ScacheEntry, SkipCache, scache_slots}
use ccbox.Fuse.Cache.Slots.{Holds, Holds-set, Holds-hit, first_empty}
use ccbox.Fuse.Transform.{transform_to_container}
use ccbox.Fuse.QuickScan.{quick_scan_has_mappings}
use ccbox.Fuse.QuickScan.Sound.{transform_to_container-quick_scan}
use ccbox.Fuse.Node.Kernel.{Caches}
use ccbox.Fuse.Node.Handle.{or_self}

-- What a reader is to see of a file with this content: the rewriting, or the content itself.
unfoldable pub view : Config → Bytes → Outcome Bytes
unfolding or_self
view c s = do text ← transform_to_container s c.path_mappings c.dir_mappings; done (or_self text s)

-- Behind a quick scan of the whole content that finds nothing, a reader is to see the content.
pub view-quick_scan :
    (c : Config) (s : Bytes)
    → quick_scan_has_mappings s c.path_mappings c.dir_mappings ≡ false
    → view c s ≡ done s
unfolding view
view-quick_scan c s h =
    rw (transform_to_container-quick_scan s c.path_mappings c.dir_mappings h) refl

-- The content that a path and a file time stand for.
abbrev pub Files : Type 0
Files = Bytes → ℕ → ℕ → Bytes

module _ (c : Config) (files : Files) where
  abbrev pub Shows : Bytes → ℕ → ℕ → Bytes → Type 0
  Shows path sec ns text = view c (files path sec ns) ≡ done text

  abbrev pub ShowsRead : RcacheEntry → Type 0
  ShowsRead e = Shows e.path e.mtime_sec e.mtime_ns e.content

  abbrev pub ShowsSkip : ScacheEntry → Type 0
  ShowsSkip e = Shows e.path e.mtime_sec e.mtime_ns (files e.path e.mtime_sec e.mtime_ns)

  -- Every content that is cached is what a reader is to see, and a file that is to be skipped is shown
  -- as it is.
  pub record IsFaithful (cs : Caches) : Type 0 where
    pub contents : Holds ShowsRead cs.rcache.slots
    pub skips : Holds ShowsSkip cs.scache.slots

  pub rcache_lookup-IsFaithful :
      (cs : Caches) (path : Bytes) (sec ns : ℕ)
      → IsFaithful cs
      → IsFaithful (record cs { rcache = (Read.lookup cs.rcache path sec ns).0 })
  unfolding Read.lookup
  rcache_lookup-IsFaithful cs path sec ns h =
      let test = Read.matches path sec ns in
      let hit = touch test (next_seq cs.rcache) cs.rcache.slots in
      record {
        contents =
            found-Holds Shows cs.rcache test hit h.contents
              (touch-Touched Shows test (next_seq cs.rcache) cs.rcache.slots h.contents);
        skips = h.skips;
      }

  pub rcache_lookup-Shows :
      (cs : Caches) (path : Bytes) (sec ns : ℕ) (text : Bytes)
      → IsFaithful cs
      → (Read.lookup cs.rcache path sec ns).1 ≡ some text
      → Shows path sec ns text
  unfolding Read.lookup
  rcache_lookup-Shows cs path sec ns text h e =
      let test = Read.matches path sec ns in
      let (x, m, s, k) =
        found-answer Shows cs.rcache test (touch test (next_seq cs.rcache) cs.rcache.slots) text
          (touch-Touched Shows test (next_seq cs.rcache) cs.rcache.slots h.contents) e in
      let (p, a, b) = matches-eq path sec ns x m in rw (← p, ← a, ← b, ← k) s

  pub rcache_insert-IsFaithful :
      (cs : Caches) (path : Bytes) (sec ns : ℕ) (text : Bytes)
      → IsFaithful cs
      → Shows path sec ns text
      → IsFaithful (record cs { rcache = Read.insert cs.rcache path sec ns text })
  unfolding Read.insert
  rcache_insert-IsFaithful cs path sec ns text h s =
      elim (Bool-cases (ltb rcache_max_size (length text))) [
        | inl large ↦ rw (large, Read.insert) h
        | inr small ↦
            rw (small, Read.insert)
              (record {
                contents =
                    Holds-set ShowsRead cs.rcache.slots (find_lru 0 0 max_uint64 cs.rcache.slots) _
                      s h.contents;
                skips = h.skips;
              })
      ]

  pub scache_insert-IsFaithful :
      (cs : Caches) (path : Bytes) (sec ns : ℕ)
      → IsFaithful cs
      → Shows path sec ns (files path sec ns)
      → IsFaithful (record cs { scache = Skip.insert cs.scache path sec ns })
  unfolding Skip.insert
  scache_insert-IsFaithful cs path sec ns h s =
      elim (Option-cases (first_empty 0 cs.scache.slots)) [
        | inl full ↦
            rw (full, Skip.insert)
              (record {
                contents = h.contents;
                skips =
                    Holds-set ShowsSkip cs.scache.slots (cs.scache.idx % scache_slots) _ s h.skips;
              })
        | inr (i, free) ↦
            rw (free, Skip.insert)
              (record {
                contents = h.contents;
                skips = Holds-set ShowsSkip cs.scache.slots i _ s h.skips;
              })
      ]

  skip_matches-eq :
      (path : Bytes) (sec ns : ℕ) (e : ScacheEntry)
      → Skip.matches path sec ns e ≡ true
      → (e.path ≡ path) × (e.mtime_sec ≡ sec) × (e.mtime_ns ≡ ns)
  unfolding Skip.matches
  skip_matches-eq path sec ns e m =
      (ground (arith, equal_iff e.path path), ground arith, ground arith)

  pub scache_lookup-Shows :
      (cs : Caches) (path : Bytes) (sec ns : ℕ)
      → IsFaithful cs
      → Skip.lookup cs.scache path sec ns ≡ true
      → Shows path sec ns (files path sec ns)
  unfolding Skip.lookup
  scache_lookup-Shows cs path sec ns h k =
      let (e, m, s) = Holds-hit ShowsSkip (Skip.matches path sec ns) cs.scache.slots h.skips k in
      let (p, a, b) = skip_matches-eq path sec ns e m in ground (arith, s, p, a, b)
