-- ===== src/Fuse/Cache/Read/Reads.antt =====
-- What a lookup answers after the other operations.
use ccbox.Common.{
  ℕ, zero, suc, ◌+◌, ◌≤◌, ◌<◌, ◌≡◌, refl, ap, sym, ◌∙◌, ◌%◌, ◌^◌, if◌then◌else◌, inl, inr, Bool,
  true, false, Option, none, some, List, [], ◌∷◌, ltb, arith, length, set, Bytes, equal, equal_iff,
  Bool-cases,
}
use ccbox.Fuse.Cache.Read.{
  RcacheEntry, ReadCache, rcache_max_size, max_uint64, next_seq, matches, touch, found, lookup,
  find_lru, insert, invalidate,
}
use ccbox.Fuse.Cache.Read.Evict.{find_lru-lt}
use ccbox.Fuse.Cache.Slots.{clear, Holds, Holds-map, clear-Holds}

-- A lookup as an answer alone.
abbrev pub answer : ReadCache → Bytes → ℕ → ℕ → Option Bytes
answer rc path sec ns = (lookup rc path sec ns).1

fails_of_touch :
    (test : RcacheEntry → Bool) (q : ℕ) (ss : List (Option RcacheEntry))
    → touch test q ss ≡ none
    → Holds (λ e. test e ≡ false) ss
unfolding touch
fails_of_touch test q [] h = tt
fails_of_touch test q (none ∷ ss) h = fails_of_touch test q ss (ground arith)
fails_of_touch test q (some e ∷ ss) h = (ground arith, fails_of_touch test q ss (ground arith))

touch_fails :
    (test : RcacheEntry → Bool) (q : ℕ) (ss : List (Option RcacheEntry))
    → Holds (λ e. test e ≡ false) ss
    → touch test q ss ≡ none
unfolding touch
touch_fails test q [] h = refl
touch_fails test q (none ∷ ss) h = rw (touch_fails test q ss h)
touch_fails test q (some e ∷ ss) h = rw (h.0, touch_fails test q ss h.1)

touch-set :
    (test : RcacheEntry → Bool) (q : ℕ) (ss : List (Option RcacheEntry)) (i : ℕ) (e : RcacheEntry)
    → Holds (λ e. test e ≡ false) ss
    → i < length ss
    → test e ≡ true
    → (ss' : List (Option RcacheEntry)) × (touch test q (set ss i (some e)) ≡ some (e.content, ss'))
unfolding touch
touch-set test q [] i e h l t = elim l [ ]
touch-set test q (x ∷ ss) zero e h l t = (some (record e { seq = q }) ∷ ss, rw t)
touch-set test q (none ∷ ss) (suc i) e h l t =
    let (ss', r) = touch-set test q ss i e h (omega arith) t in (none ∷ ss', rw r)
touch-set test q (some x ∷ ss) (suc i) e h l t =
    let (ss', r) = touch-set test q ss i e h.1 (omega arith) t in (some x ∷ ss', rw (h.0, r))

abbrev content_of : Option (Bytes × List (Option RcacheEntry)) → Option Bytes
content_of none = none
content_of (some (content, ss)) = some content

touch-clear :
    (test gone : RcacheEntry → Bool) (q : ℕ) (ss : List (Option RcacheEntry))
    → ((e : RcacheEntry) → gone e ≡ true → test e ≡ false)
    → content_of (touch test q (clear gone ss)) ≡ content_of (touch test q ss)
unfolding touch clear
touch-clear test gone q [] h = refl
touch-clear test gone q (none ∷ ss) h = ground (arith, touch-clear test gone q ss h)
touch-clear test gone q (some e ∷ ss) h = elim (Bool-cases (gone e)) [
  | inl t ↦ rw (t, h e t) (ground (arith, touch-clear test gone q ss h))
  | inr f ↦ rw f (ground (arith, touch-clear test gone q ss h))
]

matches_self :
    (path : Bytes) (sec ns : ℕ) (content : Bytes) (q : ℕ)
    → matches path sec ns
        (record { path = path; mtime_sec = sec; mtime_ns = ns; content = content; seq = q })
      ≡ true
unfolding matches
matches_self path sec ns content q = ground (arith, equal_iff path path)

found-content_of :
    (rc : ReadCache) (o : Option (Bytes × List (Option RcacheEntry)))
    → (found rc o).1 ≡ content_of o
unfolding found
found-content_of rc none = refl
found-content_of rc (some (content, ss)) = refl

answer-content_of :
    (rc : ReadCache) (path : Bytes) (sec ns : ℕ)
    → answer rc path sec ns ≡ content_of (touch (matches path sec ns) (next_seq rc) rc.slots)
unfolding lookup
answer-content_of rc path sec ns =
    found-content_of rc (touch (matches path sec ns) (next_seq rc) rc.slots)

none_of_content : (o : Option (Bytes × List (Option RcacheEntry))) → content_of o ≡ none → o ≡ none
none_of_content none h = refl
none_of_content (some (content, ss)) h = absurd (ground arith)

-- A content that fits is found right behind its insertion, if the cache has a slot and had no content
-- for its key.
answer-insert :
    (rc : ReadCache) (path : Bytes) (sec ns : ℕ) (content : Bytes)
    → length content ≤ rcache_max_size
    → 0 < length rc.slots
    → answer rc path sec ns ≡ none
    → answer (insert rc path sec ns content) path sec ns ≡ some content
unfolding insert
answer-insert rc path sec ns content small l miss =
    let kept : ltb rcache_max_size (length content) ≡ false = ground arith in
    let test = matches path sec ns in
    let absent =
      none_of_content (touch test (next_seq rc) rc.slots)
        (sym (answer-content_of rc path sec ns) ∙ miss) in
    let e : RcacheEntry = record {
      path = path;
      mtime_sec = sec;
      mtime_ns = ns;
      content = content;
      seq = next_seq rc;
    } in
    let (ss', found) =
      touch-set test ((next_seq rc + 1) % 2 ^ 64) rc.slots (find_lru 0 0 max_uint64 rc.slots) e
        (fails_of_touch test (next_seq rc) rc.slots absent)
        (omega (arith, find_lru-lt 0 0 max_uint64 rc.slots))
        (matches_self path sec ns content (next_seq rc)) in
    rw kept (rw answer-content_of (rw found))

gone_other :
    (path other : Bytes) (sec ns : ℕ)
    → equal path other ≡ false
    → (e : RcacheEntry) → equal e.path path ≡ true
    → matches other sec ns e ≡ false
unfolding matches
gone_other path other sec ns h e g = ground (arith, equal_iff e.path path, equal_iff e.path other)

left_other :
    (path other : Bytes) (sec ns : ℕ)
    → equal path other ≡ true
    → (e : RcacheEntry) → equal e.path path ≡ false
    → matches other sec ns e ≡ false
unfolding matches
left_other path other sec ns h e g =
    ground (arith, equal_iff path other, equal_iff e.path path, equal_iff e.path other)

-- Behind an invalidation nothing is found for its path, and for every other path what was.
answer-invalidate :
    (rc : ReadCache) (path other : Bytes) (sec ns : ℕ)
    → answer (invalidate rc path) other sec ns
      ≡ (if equal path other then none else answer rc other sec ns)
unfolding invalidate
answer-invalidate rc path other sec ns = elim (Bool-cases (equal path other)) [
  | inl same ↦ rw same (
      answer-content_of _ other sec ns
      ∙ ap content_of (
          touch_fails (matches other sec ns) (next_seq rc) (clear (λ e. equal e.path path) rc.slots)
            (Holds-map (λ e. equal e.path path ≡ false) (λ e. matches other sec ns e ≡ false)
              (clear (λ e. equal e.path path) rc.slots) (left_other path other sec ns same)
              (clear-Holds (λ e. equal e.path path) rc.slots))))
  | inr differ ↦ rw differ (
      answer-content_of _ other sec ns
      ∙ touch-clear (matches other sec ns) (λ e. equal e.path path) (next_seq rc) rc.slots
          (gone_other path other sec ns differ)
      ∙ sym (answer-content_of rc other sec ns))
]
