-- ===== src/Fuse/Node/Handle.antt =====
-- internal/fuse/node.go: open files, `CcboxFileHandle`. A result that go-fuse reads from the file
-- itself, `fuse.ReadResultFd`, is the read.
use ccbox.Common.{
  ℕ, zero, suc, ◌+◌, ◌-◌, ◌%◌, ◌^◌, Bool, true, false, ◌&&◌, Option, none, some, [], ◌∷◌, ◌++◌, leb,
  ltb, ◌==◌, if◌then◌else◌, length, drop, Bytes,
}
use Prim.Native.Nat.{min}
use ccbox.Fuse.Config.{Config}
use ccbox.Fuse.Transform.{transform_to_container, transform_to_host}
use ccbox.Fuse.QuickScan.{quick_scan_size, quick_scan_has_mappings}
use ccbox.Fuse.Node.Kernel.{
  Kernel, Stat, Reply, ok, err, crash, Root, FileHandle, State, Action, pure, ◌>>=◌, ◌>>◌, attempt,
  finally, lift, look, call, rcache_lookup, scache_lookup, rcache_insert, scache_insert,
  rcache_invalidate, scache_invalidate,
}

unfoldable pub take : ℕ → Bytes → Bytes
take zero s = []
take (suc n) [] = []
take (suc n) (c ∷ s) = c ∷ take n s

-- `end := off+len(dest)`, at most `len(data)`, and `data[off:end]`; nothing from the end on.
unfoldable pub slice : Bytes → ℕ → ℕ → Bytes
slice content off n =
    if leb (length content) off
    then []
    else take (min (off + n) (length content) - off) (drop off content)

-- `n` bytes, zeros behind the text.
unfoldable pub pad : ℕ → Bytes → Bytes
pad zero s = []
pad (suc n) [] = 0 ∷ pad n []
pad (suc n) (c ∷ s) = c ∷ pad n s

-- The text with `t` written at the offset, as much longer as that needs.
unfoldable pub overwrite : Bytes → ℕ → Bytes → Bytes
overwrite s zero t = t ++ drop (length t) s
overwrite [] (suc n) t = 0 ∷ overwrite [] n t
overwrite (c ∷ s) (suc n) t = c ∷ overwrite s n t

unfoldable pub or_self : Option Bytes → Bytes → Bytes
or_self none s = s
or_self (some t) s = t

-- `err != nil || n <= 0` answers false.
unfoldable pub scanned : Config → Reply Bytes → Bool
scanned c (ok head) = quick_scan_has_mappings head c.path_mappings c.dir_mappings
scanned c (err e) = false
scanned c crash = false

-- `uint32(len(data))`
abbrev pub count : Bytes → ℕ
count content = length content % 2 ^ 32

-- What `Pread` left in the first `st.Size` bytes.
unfoldable pub old_bytes : ℕ → Reply Bytes → Bytes
old_bytes size (ok old) = pad size old
old_bytes size (err e) = pad size []
old_bytes size crash = pad size []

-- The size of what a read would give, if that is in the read cache.
unfoldable pub with_size : Stat → Option Bytes → Stat
with_size st none = st
with_size st (some content) = record st { size = length content }

module _ (k : Kernel) where
  unfoldable pub read_fd : FileHandle → ℕ → ℕ → Action (State k) Bytes
  read_fd fh n off = look k (λ w. k.pread w fh.fd n off)

  -- The full read, the rewriting and the insertion.
  unfoldable pub read_transformed : Config → FileHandle → Stat → ℕ → ℕ → Action (State k) Bytes
  unfolding or_self slice
  read_transformed c fh st n off = do
    file_buf ← look k (λ w. k.pread w fh.fd st.size 0)
    transformed ← lift (transform_to_container file_buf c.path_mappings c.dir_mappings)
    rcache_insert k fh.source_path st (or_self transformed file_buf)
    pure (slice (or_self transformed file_buf) off n)

  -- The quick scan, behind a miss of both caches.
  unfoldable pub read_scanned : Config → FileHandle → Stat → ℕ → ℕ → Action (State k) Bytes
  read_scanned c fh st n off = do
    head ← attempt (look k (λ w. k.pread w fh.fd quick_scan_size 0))
    if scanned c head
        then read_transformed c fh st n off
        else (do scache_insert k fh.source_path st; read_fd fh n off)

  -- The read cache, behind a miss of the skip cache.
  unfoldable pub read_cached : Config → FileHandle → Stat → ℕ → ℕ → Action (State k) Bytes
  read_cached c fh st n off = do
    found ← rcache_lookup k fh.source_path st
    elim found [ some content ↦ pure (slice content off n) | none ↦ read_scanned c fh st n off ]

  unfoldable pub read : Root → FileHandle → ℕ → ℕ → Action (State k) Bytes
  read r fh n off =
      if fh.needs_transform
      then (do
        st ← look k (λ w. k.fstat w fh.fd)
        if st.size == 0 then pure [] else (do
          skip ← scache_lookup k fh.source_path st
          if skip then read_fd fh n off else read_cached r.config fh st n off))
      else read_fd fh n off

  unfoldable pub write_fd : FileHandle → Bytes → ℕ → Action (State k) ℕ
  write_fd fh content off = do nw ← call k (λ w. k.pwrite w fh.fd content off); pure (nw % 2 ^ 32)

  -- `Pwrite` at 0 and `Ftruncate` to what was written.
  unfoldable pub write_all : FileHandle → Bytes → Bytes → Action (State k) ℕ
  write_all fh content text = do
    nw ← call k (λ w. k.pwrite w fh.fd text 0)
    attempt (call k (λ w. k.ftruncate w fh.fd nw))
    pure (count content)

  unfoldable pub write_merged : FileHandle → Bytes → Bytes → ℕ → Action (State k) ℕ
  unfolding overwrite old_bytes
  write_merged fh content text off = do
    call k (λ w. k.flock w fh.fd true)
    finally
        (do
          st ← look k (λ w. k.fstat w fh.fd)
          old ← attempt (look k (λ w. k.pread w fh.fd st.size 0))
          write_all fh content (overwrite (old_bytes st.size old) off text))
        (call k (λ w. k.flock w fh.fd false))

  unfoldable pub write_transformed : FileHandle → Bytes → ℕ → Option Bytes → Action (State k) ℕ
  write_transformed fh content off none = write_fd fh content off
  write_transformed fh content off (some text) =
      if off == 0 then write_all fh content text else write_merged fh content text off

  unfoldable pub write : Root → FileHandle → Bytes → ℕ → Action (State k) ℕ
  write r fh content off = do
    rcache_invalidate k fh.source_path
    scache_invalidate k fh.source_path
    if fh.needs_transform
        then (do
          text ← lift (transform_to_host content r.config.path_mappings r.config.dir_mappings)
          write_transformed fh content off text)
        else write_fd fh content off

  unfoldable pub getattr_fd : FileHandle → Action (State k) Stat
  unfolding with_size
  getattr_fd fh = do
    st ← look k (λ w. k.fstat w fh.fd)
    if fh.needs_transform && ltb 0 st.size
        then (do found ← rcache_lookup k fh.source_path st; pure (with_size st found))
        else pure st

  unfoldable pub release : FileHandle → Action (State k) (Unit {0})
  release fh (w, c) = (ok tt, (k.close w fh.fd, c))

  unfoldable pub flush : FileHandle → Action (State k) (Unit {0})
  flush fh = do new_fd ← call k (λ w. k.dup w fh.fd); release (record fh { fd = new_fd })

  -- `flags&1 != 0`
  unfoldable pub fsync : FileHandle → ℕ → Action (State k) (Unit {0})
  fsync fh flags =
      if flags % 2 == 1 then call k (λ w. k.fdatasync w fh.fd) else call k (λ w. k.fsync w fh.fd)
