-- ===== src/Fuse/Cache/Read/Evict.antt =====
-- Which slot an insertion takes.
use ccbox.Common.{
  ℕ, suc, ◌+◌, ◌≤◌, ◌<◌, ◌≡◌, refl, ◌⊎◌, inl, inr, false, Option, none, some, List, [], ◌∷◌, ltb,
  arith, length, get_elem?, set, Bytes, Bool-cases,
}
use ccbox.Fuse.Cache.Read.{
  RcacheEntry, ReadCache, rcache_max_size, max_uint64, next_seq, find_lru, insert,
}
use ccbox.Fuse.Cache.Slots.{Holds, IsFull}

-- The slot is empty, or all are taken and none holds a smaller number.
abbrev pub Evicts : List (Option RcacheEntry) → ℕ → Type 0
Evicts ss i =
    (get_elem? ss i ≡ some none)
    ⊎ (IsFull ss
        × ((e : RcacheEntry) × (get_elem? ss i ≡ some (some e)) × Holds (λ x. e.seq ≤ x.seq) ss))

-- What the loop finds behind `k` slots, with `lru` the best of those at the number `m`.
Finds : ℕ → ℕ → ℕ → List (Option RcacheEntry) → ℕ → Type 0
Finds k lru m ss r =
    ((j : ℕ) × (r ≡ k + j) × (get_elem? ss j ≡ some none))
    ⊎ (IsFull ss
        × (((r ≡ lru) × Holds (λ x. m ≤ x.seq) ss)
            ⊎ ((j : ℕ) × (e : RcacheEntry) × (r ≡ k + j)
                × (get_elem? ss j ≡ some (some e))
                × (e.seq < m)
                × Holds (λ x. e.seq ≤ x.seq) ss)))

find_lru-Finds :
    (k lru m : ℕ) (ss : List (Option RcacheEntry)) → Finds k lru m ss (find_lru k lru m ss)
unfolding find_lru Finds
find_lru-Finds k lru m [] = inr (tt, inl (refl, tt))
find_lru-Finds k lru m (none ∷ ss) = inl (0, omega arith, refl)
find_lru-Finds k lru m (some e ∷ ss) = elim (Bool-cases (ltb e.seq m)) [
  | inl less ↦ rw less (elim (find_lru-Finds (k + 1) k e.seq ss) [
    | inl (j, r, g) ↦ inl (suc j, omega arith, g)
    | inr (full, inl (r, h)) ↦
        inr (full, inr (0, e, omega arith, refl, ground arith, (omega arith, h)))
    | inr (full, inr (j, x, r, g, l, h)) ↦
        inr (full, inr (suc j, x, omega arith, g, ground arith, (omega arith, h)))
  ])
  | inr more ↦ rw more (elim (find_lru-Finds (k + 1) lru m ss) [
    | inl (j, r, g) ↦ inl (suc j, omega arith, g)
    | inr (full, inl (r, h)) ↦ inr (full, inl (r, (ground arith, h)))
    | inr (full, inr (j, x, r, g, l, h)) ↦
        inr (full, inr (suc j, x, omega arith, g, l, (ground arith, h)))
  ])
]

pub find_lru-lt :
    (k lru m : ℕ) (ss : List (Option RcacheEntry))
    → lru < k + length ss
    → find_lru k lru m ss < k + length ss
unfolding find_lru
find_lru-lt k lru m [] h = h
find_lru-lt k lru m (none ∷ ss) h = omega arith
find_lru-lt k lru m (some e ∷ ss) h = elim (Bool-cases (ltb e.seq m)) [
  | inl less ↦ rw less (omega (arith, find_lru-lt (k + 1) k e.seq ss))
  | inr more ↦ rw more (omega (arith, find_lru-lt (k + 1) lru m ss))
]

no_top :
    (ss : List (Option RcacheEntry))
    → 0 < length ss
    → IsFull ss
    → Holds (λ x. max_uint64 ≤ x.seq) ss
    → Holds (λ x. x.seq < max_uint64) ss
    → ⊥
no_top [] l full top b = elim l [ ]
no_top (none ∷ ss) l full top b = full
no_top (some e ∷ ss) l full top b = omega arith

find_lru-Evicts :
    (ss : List (Option RcacheEntry))
    → 0 < length ss
    → Holds (λ e. e.seq < max_uint64) ss
    → Evicts ss (find_lru 0 0 max_uint64 ss)
unfolding Finds
find_lru-Evicts ss h b = elim (find_lru-Finds 0 0 max_uint64 ss) [
  | inl (j, r, g) ↦ let at_j : find_lru 0 0 max_uint64 ss ≡ j = omega arith in inl (rw at_j g)
  | inr (full, inl (r, top)) ↦ absurd (no_top ss h full top b)
  | inr (full, inr (j, e, r, g, l, least)) ↦
      let at_j : find_lru 0 0 max_uint64 ss ≡ j = omega arith in inr (full, (e, rw at_j g, least))
]

-- If the content fits, the cache has a slot and no sequence number has reached the maximum, an
-- insertion writes exactly one slot: an empty one, or in a full cache one that was used no later than
-- any other.
pub insert-Evicts :
    (rc : ReadCache) (path : Bytes) (sec ns : ℕ) (content : Bytes)
    → length content ≤ rcache_max_size
    → 0 < length rc.slots
    → Holds (λ e. e.seq < max_uint64) rc.slots
    → (i : ℕ) × Evicts rc.slots i
      × ((insert rc path sec ns content).slots
          ≡ set rc.slots i (
              some (record {
                path = path;
                mtime_sec = sec;
                mtime_ns = ns;
                content = content;
                seq = next_seq rc;
              })))
unfolding insert
insert-Evicts rc path sec ns content h l b =
    let kept : ltb rcache_max_size (length content) ≡ false = ground arith in
    (find_lru 0 0 max_uint64 rc.slots, find_lru-Evicts rc.slots l b, rw kept)
