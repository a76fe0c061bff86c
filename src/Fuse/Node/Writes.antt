-- ===== src/Fuse/Node/Writes.antt =====
-- What a write leaves in the caches.
use ccbox.Common.{ℕ, ◌≡◌, ◌==◌, refl, sym, false, Option, none, some, Bytes, equal}
use mathlib.Core.Path.{subst}
use ccbox.Fuse.Config.{Config}
use ccbox.Fuse.Cache.Read
use ccbox.Fuse.Cache.Skip
use ccbox.Fuse.Cache.Slots.{Holds-clear_map}
use ccbox.Fuse.Node.Kernel.{
  Kernel, Root, Caches, FileHandle, State, bind_reply, rcache_invalidate, scache_invalidate,
}
use ccbox.Fuse.Node.Handle.{
  overwrite, old_bytes, write_fd, write_all, write_merged, write_transformed, write,
}
use ccbox.Fuse.Node.Faithful.{Files, ShowsRead, ShowsSkip, IsFaithful}
use ccbox.Fuse.Node.Frame.{Keeps, bind_reply-Keeps, reply_of-Keeps, lift-Keeps, if-Keeps}

-- The caches without what they had under a path.
unfoldable pub forget : Bytes → Caches → Caches
forget path cs = record cs {
  rcache = Read.invalidate cs.rcache path;
  scache = Skip.invalidate cs.scache path;
}

-- The files are the same but for those under a path.
abbrev pub SameBut : Bytes → Files → Files → Type 0
SameBut path files files' =
    (p : Bytes) (sec ns : ℕ) → equal p path ≡ false → files' p sec ns ≡ files p sec ns

pub forget-IsFaithful :
    (c : Config) (files files' : Files) (path : Bytes) (cs : Caches)
    → SameBut path files files'
    → IsFaithful c files cs
    → IsFaithful c files' (forget path cs)
unfolding forget Read.invalidate Skip.invalidate
forget-IsFaithful c files files' path cs same h = record {
  contents =
      Holds-clear_map (ShowsRead c files) (ShowsRead c files') (λ e. equal e.path path)
        cs.rcache.slots (λ e other shown. rw (same e.path e.mtime_sec e.mtime_ns other) shown)
        h.contents;
  skips =
      Holds-clear_map (ShowsSkip c files) (ShowsSkip c files') (λ e. equal e.path path)
        cs.scache.slots (λ e other shown. rw (same e.path e.mtime_sec e.mtime_ns other) shown)
        h.skips;
}

module _ (k : Kernel) where
  write_fd-Keeps :
      (fh : FileHandle) (content : Bytes) (off : ℕ) → Keeps k (write_fd k fh content off)
  unfolding write_fd
  write_fd-Keeps fh content off s = bind_reply-Keeps k _ _ refl (λ nw s. refl)

  write_all-Keeps : (fh : FileHandle) (content text : Bytes) → Keeps k (write_all k fh content text)
  unfolding write_all
  write_all-Keeps fh content text s =
      bind_reply-Keeps k _ _ refl
        (λ nw s. bind_reply-Keeps k _ _ (reply_of-Keeps k _ refl) (λ x s. refl))

  write_merged-Keeps :
      (fh : FileHandle) (content text : Bytes) (off : ℕ)
      → Keeps k (write_merged k fh content text off)
  unfolding write_merged
  write_merged-Keeps fh content text off s = bind_reply-Keeps k _ _ refl (λ u s.
      bind_reply-Keeps k _ _ refl (λ st s.
        bind_reply-Keeps k _ _ (reply_of-Keeps k _ refl)
          (λ old s. write_all-Keeps fh content (overwrite (old_bytes st.size old) off text) s)))

  write_transformed-Keeps :
      (fh : FileHandle) (content : Bytes) (off : ℕ) (text : Option Bytes)
      → Keeps k (write_transformed k fh content off text)
  unfolding write_transformed
  write_transformed-Keeps fh content off none = write_fd-Keeps fh content off
  write_transformed-Keeps fh content off (some text) =
      if-Keeps k (off == 0) _ _ (write_all-Keeps fh content text)
        (write_merged-Keeps fh content text off)

  write-forget :
      (r : Root) (fh : FileHandle) (content : Bytes) (off : ℕ) (s : State k)
      → (write k r fh content off s).1.1 ≡ forget fh.source_path s.1
  unfolding write forget rcache_invalidate scache_invalidate bind_reply
  write-forget r fh content off (w, cs) =
      if-Keeps k fh.needs_transform _ _
        (λ s.
          bind_reply-Keeps k _ _ (lift-Keeps k _ s)
            (λ text. write_transformed-Keeps fh content off text))
        (write_fd-Keeps fh content off) (w, forget fh.source_path cs)

-- Where the caches hold what readers are to see, they still do behind a write, whatever it replies and
-- however it changes the files under its path.
pub write-IsFaithful :
    (k : Kernel) (r : Root) (files files' : Files) (fh : FileHandle) (content : Bytes) (off : ℕ)
    (s : State k)
    → SameBut fh.source_path files files'
    → IsFaithful r.config files s.1
    → IsFaithful r.config files' (write k r fh content off s).1.1
write-IsFaithful k r files files' fh content off s same h =
    subst (IsFaithful r.config files') (sym (write-forget k r fh content off s))
      (forget-IsFaithful r.config files files' fh.source_path s.1 same h)
