-- ===== src/Fuse/Cache/Read/Trace.antt =====
-- The cache against its history: what it answers was stored for the same key, and not taken back.
use ccbox.Common.{
  ℕ, ◌≤◌, ◌≡◌, refl, inl, inr, Bool, true, false, Option, none, some, List, [], ◌∷◌, ltb, arith,
  length, Bytes, equal, equal_iff, Bool-cases,
}
use ccbox.Fuse.Cache.Read.{
  RcacheEntry, ReadCache, rcache_slots, rcache_max_size, max_uint64, next_seq, matches, behind,
  touch, found, lookup, find_lru, insert, invalidate, new_read_cache,
}
use ccbox.Fuse.Cache.Read.Reads.{answer}
use ccbox.Fuse.Cache.Slots.{Holds, Holds-set, Holds-map, Holds-clear_map, clear, replicate-Holds}

pub data Event : Type 0 where
  looked_up : Bytes → ℕ → ℕ → Event
  inserted : Bytes → ℕ → ℕ → Bytes → Event
  invalidated : Bytes → Event

-- The state behind a history, whose latest event stands first.
unfoldable pub run : List Event → ReadCache
unfolding lookup insert invalidate
run [] = new_read_cache
run (looked_up path sec ns ∷ h) = (lookup (run h) path sec ns).0
run (inserted path sec ns content ∷ h) = insert (run h) path sec ns content
run (invalidated path ∷ h) = invalidate (run h) path

abbrev pub Spares : Bytes → Event → Type 0
Spares path (looked_up q sec ns) = Unit
Spares path (inserted q sec ns content) = Unit
Spares path (invalidated q) = equal path q ≡ false

-- The content was inserted for the key, within the size limit, and the path not invalidated since.
pub data Current (path : Bytes) (sec ns : ℕ) (content : Bytes) : List Event → Type 0 where
  stored :
      {h : List Event}
      → length content ≤ rcache_max_size
      → Current path sec ns content (inserted path sec ns content ∷ h)
  kept :
      {ev : Event} {h : List Event}
      → Spares path ev
      → Current path sec ns content h
      → Current path sec ns content (ev ∷ h)

abbrev IsCurrent : List Event → RcacheEntry → Type 0
IsCurrent h e = Current e.path e.mtime_sec e.mtime_ns e.content h

module _ (P : Bytes → ℕ → ℕ → Bytes → Type 0) where
  abbrev pub Keeps : RcacheEntry → Type 0
  Keeps e = P e.path e.mtime_sec e.mtime_ns e.content

  -- A hit leaves every key with its content, and answers one of them that passes the test.
  pub Touched : (RcacheEntry → Bool) → Option (Bytes × List (Option RcacheEntry)) → Type 0
  Touched test none = Unit
  Touched test (some (c, ss)) =
      Holds Keeps ss × ((e : RcacheEntry) × (test e ≡ true) × Keeps e × (e.content ≡ c))

  Touched-behind :
      (test : RcacheEntry → Bool) (slot : Option RcacheEntry)
      (o : Option (Bytes × List (Option RcacheEntry)))
      → Holds Keeps (slot ∷ [])
      → Touched test o
      → Touched test (behind slot o)
  unfolding Touched
  Touched-behind test slot none k t = tt
  Touched-behind test none (some (c, ss)) k t = t
  Touched-behind test (some e) (some (c, ss)) k t = ((k.0, t.0), t.1)

  pub touch-Touched :
      (test : RcacheEntry → Bool) (q : ℕ) (ss : List (Option RcacheEntry))
      → Holds Keeps ss
      → Touched test (touch test q ss)
  unfolding touch
  touch-Touched test q [] h = unfold Touched in tt
  touch-Touched test q (none ∷ ss) h =
      Touched-behind test none (touch test q ss) tt (touch-Touched test q ss h)
  touch-Touched test q (some e ∷ ss) h = elim (Bool-cases (test e)) [
    | inl t ↦ rw t (unfold Touched in (h, (e, t, h.0, refl)))
    | inr n ↦
        rw n
          (Touched-behind test (some e) (touch test q ss) (h.0, tt) (touch-Touched test q ss h.1))
  ]

  pub found-Holds :
      (rc : ReadCache) (test : RcacheEntry → Bool) (o : Option (Bytes × List (Option RcacheEntry)))
      → Holds Keeps rc.slots
      → Touched test o
      → Holds Keeps (found rc o).0.slots
  unfolding found Touched
  found-Holds rc test none k t = k
  found-Holds rc test (some (c, ss)) k t = t.0

  pub found-answer :
      (rc : ReadCache) (test : RcacheEntry → Bool) (o : Option (Bytes × List (Option RcacheEntry)))
      (content : Bytes)
      → Touched test o
      → (found rc o).1 ≡ some content
      → (e : RcacheEntry) × (test e ≡ true) × Keeps e × (e.content ≡ content)
  unfolding found Touched
  found-answer rc test none content t h = absurd (ground arith)
  found-answer rc test (some (c, ss)) content t h =
      let (e, p, k, c') = t.1 in (e, p, k, ground arith)

abbrev Fact : List Event → Bytes → ℕ → ℕ → Bytes → Type 0
Fact h path sec ns content = Current path sec ns content h

clear-IsCurrent :
    (path : Bytes) (h : List Event) (ss : List (Option RcacheEntry))
    → Holds (IsCurrent h) ss
    → Holds (IsCurrent (invalidated path ∷ h)) (clear (λ e. equal e.path path) ss)
clear-IsCurrent path h ss =
    Holds-clear_map (IsCurrent h) (IsCurrent (invalidated path ∷ h)) (λ e. equal e.path path) ss
      (λ e spared c. kept spared c)

insert-IsCurrent :
    (path : Bytes) (sec ns : ℕ) (content : Bytes) (h : List Event) (rc : ReadCache)
    → Holds (IsCurrent h) rc.slots
    → Holds (IsCurrent (inserted path sec ns content ∷ h)) (insert rc path sec ns content).slots
unfolding insert
insert-IsCurrent path sec ns content h rc k =
    let older =
      Holds-map (IsCurrent h) (IsCurrent (inserted path sec ns content ∷ h)) rc.slots
        (λ e c. kept tt c) k in
    elim (Bool-cases (ltb rcache_max_size (length content))) [
      | inl large ↦ rw large older
      | inr small ↦ rw small (
          Holds-set (IsCurrent (inserted path sec ns content ∷ h)) rc.slots
            (find_lru 0 0 max_uint64 rc.slots) _ (stored (ground arith)) older)
    ]

lookup-IsCurrent :
    (path : Bytes) (sec ns : ℕ) (h : List Event) (rc : ReadCache)
    → Holds (IsCurrent h) rc.slots
    → Holds (IsCurrent (looked_up path sec ns ∷ h)) (lookup rc path sec ns).0.slots
unfolding lookup
lookup-IsCurrent path sec ns h rc k =
    let test = matches path sec ns in
    let hit = touch test (next_seq rc) rc.slots in
    Holds-map (IsCurrent h) (IsCurrent (looked_up path sec ns ∷ h)) (found rc hit).0.slots
      (λ e c. kept tt c)
      (found-Holds (Fact h) rc test hit k (touch-Touched (Fact h) test (next_seq rc) rc.slots k))

-- Every entry of the cache is current.
run-IsCurrent : (h : List Event) → Holds (IsCurrent h) (run h).slots
unfolding run
run-IsCurrent [] = replicate-Holds (IsCurrent []) rcache_slots
run-IsCurrent (looked_up path sec ns ∷ h) = lookup-IsCurrent path sec ns h (run h) (run-IsCurrent h)
run-IsCurrent (inserted path sec ns content ∷ h) =
    insert-IsCurrent path sec ns content h (run h) (run-IsCurrent h)
run-IsCurrent (invalidated path ∷ h) = clear-IsCurrent path h (run h).slots (run-IsCurrent h)

pub matches-eq :
    (path : Bytes) (sec ns : ℕ) (e : RcacheEntry)
    → matches path sec ns e ≡ true
    → (e.path ≡ path) × (e.mtime_sec ≡ sec) × (e.mtime_ns ≡ ns)
unfolding matches
matches-eq path sec ns e m = (ground (arith, equal_iff e.path path), ground arith, ground arith)

matches-Current :
    (h : List Event) (path : Bytes) (sec ns : ℕ) (content : Bytes) (e : RcacheEntry)
    → matches path sec ns e ≡ true
    → IsCurrent h e
    → e.content ≡ content
    → Current path sec ns content h
matches-Current h path sec ns content e m c k =
    let (p, s, n) = matches-eq path sec ns e m in rw (← p, ← s, ← n, ← k) c

-- Whatever a lookup answers was inserted under the same path and file time, is within the size
-- limit, and the path was not invalidated since.
pub lookup-Current :
    (h : List Event) (path : Bytes) (sec ns : ℕ) (content : Bytes)
    → answer (run h) path sec ns ≡ some content
    → Current path sec ns content h
unfolding lookup
lookup-Current h path sec ns content e =
    let test = matches path sec ns in
    let touched = touch-Touched (Fact h) test (next_seq (run h)) (run h).slots (run-IsCurrent h) in
    let (x, m, c, k) =
      found-answer (Fact h) (run h) test (touch test (next_seq (run h)) (run h).slots) content
        touched e in
    matches-Current h path sec ns content x m c k
