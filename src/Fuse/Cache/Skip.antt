-- ===== src/Fuse/Cache/Skip.antt =====
-- `SkipCache`: the files that need no rewriting, with round-robin replacement.
pub mod Laws
use ccbox.Common.{
  ℕ, ◌+◌, ◌%◌, Bool, ◌&&◌, Option, none, some, List, ◌==◌, set, replicate, Bytes, equal,
}
use ccbox.Fuse.Cache.Slots.{any_slot, clear, first_empty}

abbrev pub scache_slots : ℕ
scache_slots = 512

pub record ScacheEntry : Type 0 where
  pub path : Bytes
  pub mtime_sec : ℕ
  pub mtime_ns : ℕ

pub record SkipCache : Type 0 where
  pub slots : List (Option ScacheEntry)
  pub idx : ℕ

unfoldable pub matches : Bytes → ℕ → ℕ → ScacheEntry → Bool
unfolding equal
matches path sec ns e = e.mtime_sec == sec && e.mtime_ns == ns && equal e.path path

unfoldable pub lookup : SkipCache → Bytes → ℕ → ℕ → Bool
unfolding any_slot matches
lookup sc path sec ns = any_slot (matches path sec ns) sc.slots

unfoldable pub insert : SkipCache → Bytes → ℕ → ℕ → SkipCache
unfolding first_empty
insert sc path sec ns =
    let e : Option ScacheEntry = some (record { path = path; mtime_sec = sec; mtime_ns = ns }) in
    elim (first_empty 0 sc.slots) [
      | some slot ↦ record sc { slots = set sc.slots slot e }
      | none ↦ record { slots = set sc.slots (sc.idx % scache_slots) e; idx = sc.idx + 1 }
    ]

unfoldable pub invalidate : SkipCache → Bytes → SkipCache
unfolding clear
invalidate sc path = record sc { slots = clear (λ e. equal e.path path) sc.slots }

abbrev pub new_skip_cache : SkipCache
new_skip_cache = record { slots = replicate scache_slots none; idx = 0 }
