-- ===== src/Fuse/Cache/Neg.antt =====
-- `NegCache`: paths that were found not to exist, each for two seconds. The clock is an argument,
-- in nanoseconds.
pub mod Laws
use ccbox.Common.{
  ℕ, ◌+◌, ◌*◌, ◌%◌, Bool, ◌&&◌, Option, none, some, List, ltb, set, replicate, Bytes, equal,
}
use ccbox.Fuse.Cache.Slots.{any_slot, clear}

abbrev pub neg_cache_size : ℕ
neg_cache_size = 64

abbrev pub neg_cache_ttl : ℕ
neg_cache_ttl = 2 * 1_000_000_000

pub record NegCacheEntry : Type 0 where
  pub path : Bytes
  pub expires : ℕ

pub record NegCache : Type 0 where
  pub slots : List (Option NegCacheEntry)
  pub idx : ℕ

-- `e.expires.After(now) && e.path == path`
unfoldable pub matches : Bytes → ℕ → NegCacheEntry → Bool
unfolding equal
matches path now e = ltb now e.expires && equal e.path path

unfoldable pub lookup : NegCache → Bytes → ℕ → Bool
unfolding any_slot matches
lookup nc path now = any_slot (matches path now) nc.slots

unfoldable pub insert : NegCache → Bytes → ℕ → NegCache
insert nc path now = record {
  slots =
      set nc.slots (nc.idx % neg_cache_size)
        (some (record { path = path; expires = now + neg_cache_ttl }));
  idx = nc.idx + 1;
}

unfoldable pub invalidate : NegCache → Bytes → NegCache
unfolding clear
invalidate nc path = record nc { slots = clear (λ e. equal e.path path) nc.slots }

abbrev pub new_neg_cache : NegCache
new_neg_cache = record { slots = replicate neg_cache_size none; idx = 0 }
