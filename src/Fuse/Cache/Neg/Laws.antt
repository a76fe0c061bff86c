-- ===== src/Fuse/Cache/Neg/Laws.antt =====
-- How long the negative cache remembers a path.
use ccbox.Common.{
  ℕ, zero, suc, ◌+◌, ◌%◌, ◌<◌, ◌≡◌, ◌≢◌, refl, ap, inl, inr, true, false, some, List, [], ◌∷◌,
  if◌then◌else◌, arith, length, get_elem?, get_elem?-set_self, set, Bytes, equal, equal_iff,
  Bool-cases, ◌∙◌,
}
use ccbox.Fuse.Cache.Neg.{
  NegCacheEntry, NegCache, neg_cache_size, neg_cache_ttl, matches, lookup, insert, invalidate,
}
use ccbox.Fuse.Cache.Slots.{
  clear, Holds-map, clear-Holds, any_slot-get_elem?, any_slot-Holds, any_slot-clear,
}

get_elem?-set_ne {ℓ} :
    {A : Type ℓ} (xs : List A) (i j : ℕ) (v : A) → i ≢ j → get_elem? (set xs i v) j ≡ get_elem? xs j
get_elem?-set_ne [] i j v h = refl
get_elem?-set_ne (x ∷ xs) zero zero v h = absurd (h refl)
get_elem?-set_ne (x ∷ xs) zero (suc j) v h = refl
get_elem?-set_ne (x ∷ xs) (suc i) zero v h = refl
get_elem?-set_ne (x ∷ xs) (suc i) (suc j) v h = get_elem?-set_ne xs i j v (λ e. h (ap suc e))

-- Insertions one after the other, each at its time.
abbrev pub insert_all : NegCache → List (Bytes × ℕ) → NegCache
insert_all nc [] = nc
insert_all nc ((path, now) ∷ later) = insert_all (insert nc path now) later

-- An entry at index `i` stays while the next slots are not it.
insert_all-get_elem? :
    (later : List (Bytes × ℕ)) (nc : NegCache) (i k : ℕ) (e : NegCacheEntry)
    → get_elem? nc.slots (i % neg_cache_size) ≡ some (some e)
    → nc.idx ≡ i + suc k
    → k + length later < neg_cache_size
    → get_elem? (insert_all nc later).slots (i % neg_cache_size) ≡ some (some e)
unfolding insert
insert_all-get_elem? [] nc i k e g x h = g
insert_all-get_elem? ((path, now) ∷ later) nc i k e g x h =
    insert_all-get_elem? later (insert nc path now) i (suc k) e
      (get_elem?-set_ne nc.slots (nc.idx % neg_cache_size) (i % neg_cache_size) _ (omega arith) ∙ g)
      (omega arith) (omega arith)

matches_self :
    (path : Bytes) (now expires : ℕ)
    → now < expires
    → matches path now (record { path = path; expires = expires }) ≡ true
unfolding matches
matches_self path now expires h = ground (arith, equal_iff path path)

-- In an array of 64 slots, a path that was found missing is remembered until its two seconds are over,
-- if fewer than 64 insertions followed.
pub lookup-insert_all :
    (nc : NegCache) (path : Bytes) (at now : ℕ) (later : List (Bytes × ℕ))
    → length nc.slots ≡ neg_cache_size
    → length later < neg_cache_size
    → now < at + neg_cache_ttl
    → lookup (insert_all (insert nc path at) later) path now ≡ true
unfolding lookup insert
lookup-insert_all nc path at now later s h t =
    let e : NegCacheEntry = record { path = path; expires = at + neg_cache_ttl } in
    any_slot-get_elem? (matches path now) (insert_all (insert nc path at) later).slots
      (nc.idx % neg_cache_size) e
      (insert_all-get_elem? later (insert nc path at) nc.idx 0 e
        (get_elem?-set_self nc.slots (nc.idx % neg_cache_size) (some e) (omega arith)) (omega arith)
        (omega arith))
      (matches_self path now (at + neg_cache_ttl) t)

gone_other :
    (path other : Bytes) (now : ℕ)
    → equal path other ≡ false
    → (e : NegCacheEntry) → equal e.path path ≡ true
    → matches other now e ≡ false
unfolding matches
gone_other path other now h e g = ground (arith, equal_iff e.path path, equal_iff e.path other)

left_other :
    (path other : Bytes) (now : ℕ)
    → equal path other ≡ true
    → (e : NegCacheEntry) → equal e.path path ≡ false
    → matches other now e ≡ false
unfolding matches
left_other path other now h e g =
    ground (arith, equal_iff path other, equal_iff e.path path, equal_iff e.path other)

-- Behind an invalidation its path is not found missing, and every other path answers as before.
pub lookup-invalidate_path :
    (nc : NegCache) (path other : Bytes) (now : ℕ)
    → lookup (invalidate nc path) other now
      ≡ (if equal path other then false else lookup nc other now)
unfolding lookup invalidate
lookup-invalidate_path nc path other now = elim (Bool-cases (equal path other)) [
  | inl same ↦ rw same (
      any_slot-Holds (matches other now) (clear (λ e. equal e.path path) nc.slots) (
        Holds-map (λ e. equal e.path path ≡ false) (λ e. matches other now e ≡ false)
          (clear (λ e. equal e.path path) nc.slots) (left_other path other now same)
          (clear-Holds (λ e. equal e.path path) nc.slots)))
  | inr differ ↦ rw differ (
      any_slot-clear (matches other now) (λ e. equal e.path path) nc.slots
        (gone_other path other now differ))
]
