-- ===== src/Fuse/Node/WriteRead.antt =====
-- A write of a whole file and a read of it.
use ccbox.Common.{
  ℕ, ◌≤◌, ◌≡◌, refl, ap, ◌∙◌, true, some, List, [], ◌∷◌, arith, if◌then◌else◌, length, All, Bytes,
  equal, equal_iff, done,
}
use ccbox.Fuse.Config.{Config, is_alpha}
use ccbox.Fuse.Transform.{transform_to_host}
use ccbox.Fuse.Transform.Paths.{IsPathByte, IsTail}
use ccbox.Fuse.Transform.RoundTrip.{
  container_path, host_path, array, drive_mapping, transform-round_trip,
}
use ccbox.Fuse.QuickScan.{quick_scan_size}
use ccbox.Fuse.Node.Kernel.{Kernel, ok, Root, FileHandle, State}
use ccbox.Fuse.Node.Handle.{slice, or_self, read, write}
use ccbox.Fuse.Node.Faithful.{view, Files, IsFaithful}
use ccbox.Fuse.Node.Reads.{slice-all, OpenAs, Answers, read-view}
use ccbox.Fuse.Node.Writes.{SameBut, write-IsFaithful}
use ccbox.Fuse.Node.Disk.{IsDisk, written, write-written}

-- The files with one content under a path.
with_content : Bytes → Bytes → Files → Files
with_content path text files p sec ns = if equal p path then text else files p sec ns

with_content-SameBut :
    (path text : Bytes) (files : Files) → SameBut path files (with_content path text files)
unfolding with_content
with_content-SameBut path text files p sec ns e = rw e refl

with_content_self :
    (path text : Bytes) (files : Files) (sec ns : ℕ)
    → with_content path text files path sec ns ≡ text
unfolding with_content
with_content_self path text files sec ns = rw ((equal_iff path path).1 refl) refl

module _ (k : Kernel) (r : Root) (files : Files) (fh : FileHandle) (content : k.World → Bytes)
    (disk : IsDisk k fh.fd content) (t : fh.needs_transform ≡ true) where
  -- A read behind a change of the file: where the caches hold what readers are to see of the changed
  -- files, the reply is what readers are to see of the content.
  read_content :
      (s : State k) (n : ℕ) (now text : Bytes)
      → content s.0 ≡ now
      → length now ≤ quick_scan_size
      → length text ≤ n
      → view r.config now ≡ done text
      → IsFaithful r.config (with_content fh.source_path now files) s.1
      → (read k r fh n 0 s).0 ≡ ok text
  unfolding Answers
  read_content (w, cs) n now text e small whole seen h =
      let (st, f, z) = disk.fstat w in
      let open_as : OpenAs k w fh.fd st now = record {
        described = f;
        sized = z ∙ ap length e;
        readable = λ m off. disk.pread w m off ∙ ap (λ c. ok (slice c off m)) e;
      } in
      let answer =
        read-view k r (with_content fh.source_path now files) fh w cs st now text n 0 t small
          open_as (with_content_self fh.source_path now files st.mtime_sec st.mtime_ns) seen h in
      answer.0 ∙ ap ok (slice-all text n whole)

  read_stored :
      (sent text : Bytes) (n : ℕ) (s : State k)
      → transform_to_host sent r.config.path_mappings r.config.dir_mappings ≡ done (some text)
      → view r.config text ≡ done sent
      → length text ≤ quick_scan_size
      → length sent ≤ n
      → IsFaithful r.config files s.1
      → (read k r fh n 0 (write k r fh sent 0 s).1).0 ≡ ok sent
  unfolding written
  read_stored sent text n (w, cs) e seen small whole h =
      let (reply, stored) =
        write-written k r fh content sent 0 (some text) w cs disk t (omega arith) e in
      read_content (write k r fh sent 0 (w, cs)).1 n text sent stored small whole seen (
        write-IsFaithful k r files (with_content fh.source_path text files) fh sent 0 (w, cs)
          (with_content-SameBut fh.source_path text files) h)

view-array :
    (c : Config) (d : ℕ) (p t x : Bytes) (xs : List Bytes)
    → c.path_mappings ≡ drive_mapping d p t ∷ []
    → c.dir_mappings ≡ []
    → is_alpha d ≡ true
    → All IsPathByte p
    → All IsTail (x ∷ xs)
    → view c (array (host_path d p) x xs) ≡ done (array (container_path t) x xs)
unfolding view or_self
view-array c d p t x xs e f alpha hp h =
    rw (e, f, (transform-round_trip d p t x xs alpha hp h).1) refl

-- Under one mapping of a drive and no directory mapping, a JSON array of one or more quoted paths at or
-- below the mapping's container path, which is written at offset 0 of a regular file that is to be
-- rewritten and that nobody else changes, is what the next read of the file answers, if the caches held
-- what readers are to see, the text for the host has at most 64 KB and the read asks for enough bytes.
-- The host's folder and what follows the container path have no quote, comma, closing brace or bracket,
-- backslash or byte that is white space in Latin-1.
pub write-read :
    (k : Kernel) (r : Root) (files : Files) (fh : FileHandle) (content : k.World → Bytes) (d : ℕ)
    (p t x : Bytes) (xs : List Bytes) (n : ℕ) (s : State k)
    → IsDisk k fh.fd content
    → fh.needs_transform ≡ true
    → r.config.path_mappings ≡ drive_mapping d p t ∷ []
    → r.config.dir_mappings ≡ []
    → is_alpha d ≡ true
    → All IsPathByte p
    → All IsTail (x ∷ xs)
    → length (array (host_path d p) x xs) ≤ quick_scan_size
    → length (array (container_path t) x xs) ≤ n
    → IsFaithful r.config files s.1
    → (read k r fh n 0 (write k r fh (array (container_path t) x xs) 0 s).1).0
      ≡ ok (array (container_path t) x xs)
write-read k r files fh content d p t x xs n s disk needs e f alpha hp h small whole faithful =
    read_stored k r files fh content disk needs (array (container_path t) x xs)
      (array (host_path d p) x xs) n s (rw (e, f) (transform-round_trip d p t x xs alpha hp h).0)
      (view-array r.config d p t x xs e f alpha hp h) small whole faithful
