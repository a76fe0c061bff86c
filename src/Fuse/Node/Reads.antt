-- ===== src/Fuse/Node/Reads.antt =====
-- What a read answers, and what the calls leave in the caches.
use ccbox.Common.{
  ℕ, zero, suc, ◌+◌, ◌-◌, ◌≤◌, ◌≡◌, refl, ap, sym, ◌∙◌, inl, inr, true, Option, List, [], ◌∷◌,
  arith, ◌==◌, length, Bytes, Bool-cases, Option-cases, Outcome, done, panic, timeout, ◌>>=◌,
}
use Prim.Native.Nat.{min}
use ccbox.Fuse.Config.{Config}
use ccbox.Fuse.Cache.Read
use ccbox.Fuse.Cache.Skip
use ccbox.Fuse.Transform.{transform_to_container}
use ccbox.Fuse.QuickScan.{quick_scan_size, quick_scan_has_mappings}
use ccbox.Fuse.Node.Kernel.{
  Kernel, Stat, Reply, ok, Root, Caches, FileHandle, State, bind_reply, reply_of, lift,
  rcache_lookup, scache_lookup, rcache_insert, scache_insert,
}
use ccbox.Fuse.Node.Handle.{
  take, slice, or_self, scanned, read_fd, read_transformed, read_scanned, read_cached, read,
}
use ccbox.Fuse.Node.Faithful.{
  view, view-quick_scan, Files, IsFaithful, rcache_lookup-IsFaithful, rcache_lookup-Shows,
  rcache_insert-IsFaithful, scache_insert-IsFaithful, scache_lookup-Shows,
}

take_all : (n : ℕ) (s : Bytes) → length s ≤ n → take n s ≡ s
unfolding take
take_all zero [] h = refl
take_all zero (c ∷ s) h = absurd (omega arith)
take_all (suc n) [] h = refl
take_all (suc n) (c ∷ s) h = ap (◌∷◌ c) (take_all n s (omega arith))

pub slice-all : (s : Bytes) (n : ℕ) → length s ≤ n → slice s 0 n ≡ s
unfolding slice take
slice-all [] n h = refl
slice-all (c ∷ s) n h =
    ground (arith, take_all (min (0 + n) (length (c ∷ s)) - 0) (c ∷ s) (omega arith))

done_of_bind {ℓ κ} :
    {A : Type ℓ} {B : Type κ} (o : Outcome A) (f : A → Outcome B) (b : B)
    → (o >>= f) ≡ done b
    → (a : A) × (o ≡ done a) × (f a ≡ done b)
done_of_bind (done a) f b h = (a, refl, h)
done_of_bind panic f b h = absurd (ground (arith, h))
done_of_bind timeout f b h = absurd (ground (arith, h))

view-or_self :
    (c : Config) (s text : Bytes)
    → view c s ≡ done text
    → (t : Option Bytes) × (transform_to_container s c.path_mappings c.dir_mappings ≡ done t)
      × (or_self t s ≡ text)
unfolding view
view-or_self c s text h =
    let (t, e, o) = done_of_bind _ (λ t. done (or_self t s)) text h in (t, e, ground (arith, o))

length_zero {ℓ} : {A : Type ℓ} (xs : List A) → length xs ≡ 0 → xs ≡ []
length_zero [] h = refl
length_zero (x ∷ xs) h = absurd (omega arith)

view-nil : (c : Config) → view c [] ≡ done []
unfolding view transform_to_container
view-nil c = refl

slice-nil : (off n : ℕ) → slice [] off n ≡ []
unfolding slice
slice-nil off n = ground arith

text_of_done {ℓ} : {A : Type ℓ} {a b : A} → done a ≡ done b → a ≡ b
text_of_done h = ground (arith, h)

module _ (k : Kernel) where
  -- The file that is open is a regular one with this content, and it is read without an error.
  pub record OpenAs (w : k.World) (fd : ℕ) (st : Stat) (content : Bytes) : Type 0 where
    pub described : k.fstat w fd ≡ ok st
    pub sized : st.size ≡ length content
    pub readable : (n off : ℕ) → k.pread w fd n off ≡ ok (slice content off n)

  -- The reply, the world as it was, and caches that still fit.
  unfoldable pub Answers : Config → Files → k.World → Bytes → Reply Bytes × State k → Type 0
  Answers c files w text (r, (w', cs)) = (r ≡ ok text) × (w' ≡ w) × IsFaithful c files cs

  module _ (r : Root) (files : Files) (fh : FileHandle) (w : k.World) (st : Stat)
      (content text : Bytes) (open_as : OpenAs w fh.fd st content)
      (stands : files fh.source_path st.mtime_sec st.mtime_ns ≡ content)
      (seen : view r.config content ≡ done text) where
    shows : view r.config (files fh.source_path st.mtime_sec st.mtime_ns) ≡ done text
    shows = ap (view r.config) stands ∙ seen

    read_fd-Answers :
        (cs : Caches) (n off : ℕ)
        → IsFaithful r.config files cs
        → Answers r.config files w (slice content off n) (read_fd k fh n off (w, cs))
    unfolding read_fd Answers
    read_fd-Answers cs n off h = (open_as.readable n off, refl, h)

    read_transformed-Answers :
        (cs : Caches) (n off : ℕ)
        → IsFaithful r.config files cs
        → Answers r.config files w
            (slice text off n)
            (read_transformed k r.config fh st n off (w, cs))
    unfolding read_transformed Answers rcache_insert slice bind_reply reply_of lift
    read_transformed-Answers cs n off h =
        let (t, e, o) = view-or_self r.config content text seen in
        rw
          (
            open_as.readable st.size 0,
            slice-all content st.size (omega (arith, open_as.sized)),
            e,
            o,
          )
          (
            refl,
            refl,
            rcache_insert-IsFaithful r.config files cs fh.source_path st.mtime_sec st.mtime_ns text
                h shows,
          )

    read_scanned-Answers :
        (cs : Caches) (n off : ℕ)
        → length content ≤ quick_scan_size
        → IsFaithful r.config files cs
        → Answers r.config files w (slice text off n) (read_scanned k r.config fh st n off (w, cs))
    unfolding read_scanned scanned scache_insert bind_reply reply_of lift
    read_scanned-Answers cs n off small h =
        elim (Bool-cases
          (quick_scan_has_mappings content r.config.path_mappings r.config.dir_mappings)) [
            | inl some_hit ↦
                rw
                  (
                    open_as.readable quick_scan_size 0,
                    slice-all content quick_scan_size small,
                    some_hit,
                  )
                  (read_transformed-Answers cs n off h)
            | inr no_hit ↦
                let same : content ≡ text =
                  ground (arith, seen, view-quick_scan r.config content no_hit) in
                rw
                  (
                    open_as.readable quick_scan_size 0,
                    slice-all content quick_scan_size small,
                    no_hit,
                  )
                  (rw (← same) (
                    read_fd-Answers _ n off (
                      scache_insert-IsFaithful r.config files cs fh.source_path st.mtime_sec
                        st.mtime_ns h (rw stands (view-quick_scan r.config content no_hit)))))
          ]

    read_cached-Answers :
        (cs : Caches) (n off : ℕ)
        → length content ≤ quick_scan_size
        → IsFaithful r.config files cs
        → Answers r.config files w (slice text off n) (read_cached k r.config fh st n off (w, cs))
    unfolding read_cached rcache_lookup bind_reply reply_of lift
    read_cached-Answers cs n off small h =
        let path = fh.source_path in
        let kept = rcache_lookup-IsFaithful r.config files cs path st.mtime_sec st.mtime_ns h in
        elim (Option-cases (Read.lookup cs.rcache path st.mtime_sec st.mtime_ns).1) [
          | inl miss ↦ rw miss (read_scanned-Answers _ n off small kept)
          | inr (cached, hit) ↦
              let cached_shows =
                rcache_lookup-Shows r.config files cs path st.mtime_sec st.mtime_ns cached h hit in
              let same : cached ≡ text = ground (arith, shows, cached_shows) in
              rw hit (unfold Answers in (ap (λ t. ok (slice t off n)) same, refl, kept))
        ]

    slice_empty : (off n : ℕ) → length content ≡ 0 → slice text off n ≡ []
    slice_empty off n h =
        let nothing : view r.config [] ≡ done text =
          ap (view r.config) (sym (length_zero content h)) ∙ seen in
        rw (← (text_of_done (sym (view-nil r.config) ∙ nothing))) (slice-nil off n)

    read_seen :
        (cs : Caches) (n off : ℕ)
        → fh.needs_transform ≡ true
        → length content ≤ quick_scan_size
        → IsFaithful r.config files cs
        → Answers r.config files w (slice text off n) (read k r fh n off (w, cs))
    unfolding read scache_lookup read_fd read_cached bind_reply reply_of lift
    read_seen cs n off t small h = elim (Bool-cases (st.size == 0)) [
      | inl empty ↦
          rw (t, open_as.described, empty)
            (unfold Answers in
              (ap ok (sym (slice_empty off n (ground (arith, open_as.sized, empty)))), refl, h))
      | inr some_size ↦
          elim (Bool-cases (Skip.lookup cs.scache fh.source_path st.mtime_sec st.mtime_ns)) [
            | inl skip ↦
                let shown =
                  scache_lookup-Shows r.config files cs fh.source_path st.mtime_sec st.mtime_ns h
                    skip in
                let same : content ≡ text = ground (arith, shown, shows, stands) in
                rw (t, open_as.described, some_size, skip, ← same) (read_fd-Answers cs n off h)
            | inr scan ↦
                rw (t, open_as.described, some_size, scan) (read_cached-Answers cs n off small h)
          ]
    ]

-- Where an open file of at most 64 KB is to be rewritten, its content is what its path and time stand
-- for, its rewriting ends with `text`, and the caches hold what readers are to see, a read of `n` bytes
-- at an offset answers that part of `text`, whatever the caches hold, and it leaves the world as it
-- was and caches that hold what readers are to see.
pub read-view :
    (k : Kernel) (r : Root) (files : Files) (fh : FileHandle) (w : k.World) (cs : Caches)
    (st : Stat) (content text : Bytes) (n off : ℕ)
    → fh.needs_transform ≡ true
    → length content ≤ quick_scan_size
    → OpenAs k w fh.fd st content
    → files fh.source_path st.mtime_sec st.mtime_ns ≡ content
    → view r.config content ≡ done text
    → IsFaithful r.config files cs
    → Answers k r.config files w (slice text off n) (read k r fh n off (w, cs))
read-view k r files fh w cs st content text n off t small open_as stands seen h =
    read_seen k r files fh w st content text open_as stands seen cs n off t small h
