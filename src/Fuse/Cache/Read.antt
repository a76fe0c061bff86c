-- ===== src/Fuse/Cache/Read.antt =====
-- `ReadCache`: transformed contents under a path and a file time, with the least recently used
-- entry replaced.
pub mod Evict
pub mod Reads
pub mod Trace
use ccbox.Common.{
  ℕ, zero, suc, ◌+◌, ◌-◌, ◌*◌, ◌%◌, ◌^◌, Bool, true, false, ◌&&◌, Option, none, some, List, [], ◌∷◌,
  ltb, ◌==◌, if◌then◌else◌, length, set, replicate, Bytes, equal,
}
use ccbox.Fuse.Cache.Slots.{clear}

abbrev pub rcache_slots : ℕ
rcache_slots = 256

abbrev pub rcache_max_size : ℕ
rcache_max_size = 4 * 1024 * 1024

abbrev pub max_uint64 : ℕ
max_uint64 = 2 ^ 64 - 1

pub record RcacheEntry : Type 0 where
  pub path : Bytes
  pub mtime_sec : ℕ
  pub mtime_ns : ℕ
  pub content : Bytes
  pub seq : ℕ

pub record ReadCache : Type 0 where
  pub slots : List (Option RcacheEntry)
  pub seq : ℕ

-- `rc.seq++` on a `uint64`.
abbrev pub next_seq : ReadCache → ℕ
next_seq rc = (rc.seq + 1) % 2 ^ 64

unfoldable pub matches : Bytes → ℕ → ℕ → RcacheEntry → Bool
unfolding equal
matches path sec ns e = e.mtime_sec == sec && e.mtime_ns == ns && equal e.path path

-- A hit behind a slot that the loop has passed.
abbrev pub behind :
    Option RcacheEntry
    → Option (Bytes × List (Option RcacheEntry))
    → Option (Bytes × List (Option RcacheEntry))
behind slot none = none
behind slot (some (content, ss)) = some (content, slot ∷ ss)

-- The first slot that passes the test: its content, and the slots with its number renewed.
unfoldable pub touch :
    (RcacheEntry → Bool)
    → ℕ
    → List (Option RcacheEntry)
    → Option (Bytes × List (Option RcacheEntry))
touch test q [] = none
touch test q (none ∷ ss) = behind none (touch test q ss)
touch test q (some e ∷ ss) =
    let later = behind (some e) (touch test q ss) in
    if test e then some (e.content, some (record e { seq = q }) ∷ ss) else later

-- The end of `Lookup`, with the first hit.
pub found : ReadCache → Option (Bytes × List (Option RcacheEntry)) → ReadCache × Option Bytes
found rc none = (rc, none)
found rc (some (content, ss)) = (record rc { slots = ss; seq = next_seq rc }, some content)

unfoldable pub lookup : ReadCache → Bytes → ℕ → ℕ → ReadCache × Option Bytes
unfolding touch matches found
lookup rc path sec ns = found rc (touch (matches path sec ns) (next_seq rc) rc.slots)

-- The loop that finds an empty slot, or the one with the least number: the index `i` of the head,
-- the best so far and its number.
unfoldable pub find_lru : ℕ → ℕ → ℕ → List (Option RcacheEntry) → ℕ
find_lru i lru min_seq [] = lru
find_lru i lru min_seq (none ∷ ss) = i
find_lru i lru min_seq (some e ∷ ss) =
    find_lru (i + 1) (if ltb e.seq min_seq then i else lru)
      (if ltb e.seq min_seq then e.seq else min_seq) ss

unfoldable pub insert : ReadCache → Bytes → ℕ → ℕ → Bytes → ReadCache
unfolding find_lru
insert rc path sec ns content = if ltb rcache_max_size (length content) then rc else record {
  slots = set rc.slots (find_lru 0 0 max_uint64 rc.slots) (
      some (record {
        path = path;
        mtime_sec = sec;
        mtime_ns = ns;
        content = content;
        seq = next_seq rc;
      }));
  seq = next_seq rc;
}

unfoldable pub invalidate : ReadCache → Bytes → ReadCache
unfolding clear
invalidate rc path = record rc { slots = clear (λ e. equal e.path path) rc.slots }

-- `&ReadCache{}`
abbrev pub new_read_cache : ReadCache
new_read_cache = record { slots = replicate rcache_slots none; seq = 0 }
