-- ===== src/Fuse/Cache/Skip/Laws.antt =====
-- What the skip cache answers after an insertion and after an invalidation.
use ccbox.Common.{
  ℕ, ◌+◌, ◌%◌, ◌≡◌, inl, inr, true, false, some, if◌then◌else◌, arith, length, length-set, ◌∙◌,
  Bytes, equal, equal_iff, Bool-cases,
}
use ccbox.Fuse.Cache.Skip.{
  ScacheEntry, SkipCache, scache_slots, matches, lookup, insert, invalidate,
}
use ccbox.Fuse.Cache.Slots.{
  clear, Holds-map, clear-Holds, any_slot-set, any_slot-Holds, any_slot-clear,
  first_empty-get_elem?,
}

matches_self :
    (path : Bytes) (sec ns : ℕ)
    → matches path sec ns (record { path = path; mtime_sec = sec; mtime_ns = ns }) ≡ true
unfolding matches
matches_self path sec ns = ground (arith, equal_iff path path)

-- In an array of 512 slots, a file that was marked is found right behind, and the array keeps its
-- length.
lookup-insert :
    (sc : SkipCache) (path : Bytes) (sec ns : ℕ)
    → length sc.slots ≡ scache_slots
    → (lookup (insert sc path sec ns) path sec ns ≡ true)
      × (length (insert sc path sec ns).slots ≡ scache_slots)
unfolding lookup insert
lookup-insert sc path sec ns h =
    let e : ScacheEntry = record { path = path; mtime_sec = sec; mtime_ns = ns } in
    let test = matches path sec ns in
    elim (first_empty-get_elem? 0 sc.slots) [
      | inl (i, f, g, l) ↦
          rw (f, insert)
            (
              any_slot-set test sc.slots (0 + i) e (omega arith) (matches_self path sec ns),
              length-set sc.slots (0 + i) (some e) ∙ h,
            )
      | inr (f, full) ↦
          rw (f, insert)
            (
              any_slot-set test sc.slots (sc.idx % scache_slots) e (omega arith)
                  (matches_self path sec ns),
              length-set sc.slots (sc.idx % scache_slots) (some e) ∙ h,
            )
    ]

gone_other :
    (path other : Bytes) (sec ns : ℕ)
    → equal path other ≡ false
    → (e : ScacheEntry) → equal e.path path ≡ true
    → matches other sec ns e ≡ false
unfolding matches
gone_other path other sec ns h e g = ground (arith, equal_iff e.path path, equal_iff e.path other)

left_other :
    (path other : Bytes) (sec ns : ℕ)
    → equal path other ≡ true
    → (e : ScacheEntry) → equal e.path path ≡ false
    → matches other sec ns e ≡ false
unfolding matches
left_other path other sec ns h e g =
    ground (arith, equal_iff path other, equal_iff e.path path, equal_iff e.path other)

-- Behind an invalidation its path is not found, and every other path answers as before.
lookup-invalidate :
    (sc : SkipCache) (path other : Bytes) (sec ns : ℕ)
    → lookup (invalidate sc path) other sec ns
      ≡ (if equal path other then false else lookup sc other sec ns)
unfolding lookup invalidate
lookup-invalidate sc path other sec ns = elim (Bool-cases (equal path other)) [
  | inl same ↦ rw same (
      any_slot-Holds (matches other sec ns) (clear (λ e. equal e.path path) sc.slots) (
        Holds-map (λ e. equal e.path path ≡ false) (λ e. matches other sec ns e ≡ false)
          (clear (λ e. equal e.path path) sc.slots) (left_other path other sec ns same)
          (clear-Holds (λ e. equal e.path path) sc.slots)))
  | inr differ ↦ rw differ (
      any_slot-clear (matches other sec ns) (λ e. equal e.path path) sc.slots
        (gone_other path other sec ns differ))
]
