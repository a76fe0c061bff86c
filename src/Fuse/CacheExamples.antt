-- ===== src/Fuse/CacheExamples.antt =====
-- The theorems on the caches at concrete histories.
use ccbox.Common.{ℕ, ◌≡◌, refl, true, some, List, [], ◌∷◌, arith, codes, set}
use ccbox.Fuse.Cache.Read
use ccbox.Fuse.Cache.Read.{RcacheEntry, ReadCache, new_read_cache, next_seq}
use ccbox.Fuse.Cache.Read.Evict.{Evicts, insert-Evicts}
use ccbox.Fuse.Cache.Read.Trace.{
  Event, inserted, invalidated, looked_up, run, Current, lookup-Current,
}
use ccbox.Fuse.Cache.Neg
use ccbox.Fuse.Cache.Neg.{NegCache, new_neg_cache}
use ccbox.Fuse.Cache.Neg.Laws.{insert_all, lookup-insert_all}

abbrev history : List Event
history =
    looked_up (codes "/a") 1 2
    ∷ inserted (codes "/a") 1 2 (codes "x")
    ∷ invalidated (codes "/a")
    ∷ []

lookup-Current_example : Current (codes "/a") 1 2 (codes "x") history
unfolding run Read.lookup
lookup-Current_example = lookup-Current history (codes "/a") 1 2 (codes "x") refl

-- A cache of two slots that are taken.
abbrev two : ReadCache
two = record {
  slots =
      some (record { path = codes "/a"; mtime_sec = 1; mtime_ns = 0; content = codes "x"; seq = 7 })
      ∷ some
          (record { path = codes "/b"; mtime_sec = 1; mtime_ns = 0; content = codes "y"; seq = 5 })
      ∷ [];
  seq = 7;
}

insert-Evicts_example :
    (i : ℕ) × Evicts two.slots i
    × ((Read.insert two (codes "/c") 1 0 (codes "z")).slots
        ≡ set two.slots i (
            some (record {
              path = codes "/c";
              mtime_sec = 1;
              mtime_ns = 0;
              content = codes "z";
              seq = next_seq two;
            })))
insert-Evicts_example =
    insert-Evicts two (codes "/c") 1 0 (codes "z") (omega arith) (omega arith)
      (omega arith, (omega arith, tt))

lookup-insert_all_example :
    Neg.lookup
      (insert_all (Neg.insert new_neg_cache (codes "/a") 5) ((codes "/b", 6) ∷ []))
      (codes "/a")
      9
    ≡ true
lookup-insert_all_example =
    lookup-insert_all new_neg_cache (codes "/a") 5 9 ((codes "/b", 6) ∷ []) refl (omega arith)
      (omega arith)
