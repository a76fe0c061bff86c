-- ===== src/Fuse/Node/History.antt =====
-- The file system from its start: the calls on it, one after the other, and what others do meanwhile.
-- A call is one step, as go-fuse may also run several at once.
use ccbox.Common.{ℕ, ◌≤◌, ◌≡◌, true, false, Option, Bytes, equal, length, done}
use ccbox.Fuse.Cache.Read.{rcache_slots, new_read_cache}
use ccbox.Fuse.Cache.Skip.{scache_slots, new_skip_cache}
use ccbox.Fuse.Cache.Neg.{new_neg_cache}
use ccbox.Fuse.Cache.Slots.{replicate-Holds}
use ccbox.Fuse.QuickScan.{quick_scan_size}
use ccbox.Fuse.Node.Kernel.{Kernel, Stat, Root, Node, Caches, FileHandle, State}
use ccbox.Fuse.Node.Handle.{read, write, getattr_fd, release}
use ccbox.Fuse.Node.Tree.{source_path, lookup, getattr, open_node}
use ccbox.Fuse.Node.Change.{create, mkdir, unlink, rmdir, rename, symlink, link, setattr, SetAttrIn}
use ccbox.Fuse.Node.Faithful.{view, Files, ShowsRead, ShowsSkip, IsFaithful}
use ccbox.Fuse.Node.Reads.{OpenAs, Answers, read-view}
use ccbox.Fuse.Node.Writes.{SameBut, write-IsFaithful}
use ccbox.Fuse.Node.Renames.{rename-IsFaithful}
use ccbox.Fuse.Node.Stays.{lookup-Stays, getattr-Stays, getattr_fd-Stays, open_node-Stays}
use ccbox.Fuse.Node.Stays.Changes.{
  create-Stays, mkdir-Stays, symlink-Stays, link-Stays, unlink-Stays, rmdir-Stays, setattr-Stays,
}

-- The caches of `NewCcboxFS`.
abbrev pub new_caches : Caches
new_caches = record { rcache = new_read_cache; scache = new_skip_cache; neg_cache = new_neg_cache }

-- A call that leaves what each path and file time stand for: what it changes has a new file time.
pub data Op : Type 0 where
  lookup_op : Node → Bytes → Op
  getattr_op : Node → Op
  open_op : Node → ℕ → Op
  getattr_fd_op : FileHandle → Op
  release_op : FileHandle → Op
  create_op : Node → Bytes → ℕ → ℕ → Op
  mkdir_op : Node → Bytes → ℕ → Op
  unlink_op : Node → Bytes → Op
  rmdir_op : Node → Bytes → Op
  symlink_op : Node → Bytes → Bytes → Op
  link_op : Node → Node → Bytes → Op
  setattr_op : Node → Option FileHandle → SetAttrIn → Op

module _ (k : Kernel) (r : Root) where
  -- The state behind a call.
  unfoldable pub run : Op → State k → State k
  run (lookup_op n name) s = (lookup k r n name s).1
  run (getattr_op n) s = (getattr k r n s).1
  run (open_op n flags) s = (open_node k r n flags s).1
  run (getattr_fd_op fh) s = (getattr_fd k fh s).1
  run (release_op fh) s = (release k fh s).1
  run (create_op n name flags mode) s = (create k r n name flags mode s).1
  run (mkdir_op n name mode) s = (mkdir k r n name mode s).1
  run (unlink_op n name) s = (unlink k r n name s).1
  run (rmdir_op n name) s = (rmdir k r n name s).1
  run (symlink_op n target name) s = (symlink k r n target name s).1
  run (link_op n target name) s = (link k r n target name s).1
  run (setattr_op n fh a) s = (setattr k r n fh a s).1

  -- The states that a history of calls comes to, with the content that each path and file time stand for
  -- by then. A write changes what stands under its path, a rename what stands under its two; a read is
  -- of a file of at most 64 KB that is what its path and time stand for, and succeeds. Others change the world.
  pub data Reaches : Files → State k → Type 1 where
    start : {files : Files} (w : k.World) → Reaches files (w, new_caches)
    outside :
        {files : Files} {w : k.World} {cs : Caches} (w' : k.World)
        → Reaches files (w, cs)
        → Reaches files (w', cs)
    calls : {files : Files} {s : State k} (op : Op) → Reaches files s → Reaches files (run op s)
    reads :
        {files : Files} {w : k.World} {cs : Caches} (fh : FileHandle) (st : Stat)
        (content text : Bytes) (n off : ℕ)
        → fh.needs_transform ≡ true
        → length content ≤ quick_scan_size
        → OpenAs k w fh.fd st content
        → files fh.source_path st.mtime_sec st.mtime_ns ≡ content
        → view r.config content ≡ done text
        → Reaches files (w, cs)
        → Reaches files (read k r fh n off (w, cs)).1
    writes :
        {files files' : Files} {s : State k} (fh : FileHandle) (sent : Bytes) (off : ℕ)
        → SameBut fh.source_path files files'
        → Reaches files s
        → Reaches files' (write k r fh sent off s).1
    renames :
        {files files' : Files} {s : State k} (n : Node) (name : Bytes) (np : Node)
        (new_name old_path new_path : Bytes)
        → source_path r n name ≡ done old_path
        → source_path r np new_name ≡ done new_path
        → ((p : Bytes) (sec ns : ℕ)
            → equal p old_path ≡ false
            → equal p new_path ≡ false
            → files' p sec ns ≡ files p sec ns)
        → Reaches files s
        → Reaches files' (rename k r n name np new_name 0 s).1

  new_caches-IsFaithful : (files : Files) → IsFaithful r.config files new_caches
  new_caches-IsFaithful files = record {
    contents = replicate-Holds (ShowsRead r.config files) rcache_slots;
    skips = replicate-Holds (ShowsSkip r.config files) scache_slots;
  }

  run-IsFaithful :
      (files : Files) (op : Op) (s : State k)
      → IsFaithful r.config files s.1
      → IsFaithful r.config files (run op s).1
  unfolding run release
  run-IsFaithful files (lookup_op n name) s h = lookup-Stays k r.config files r n name s h
  run-IsFaithful files (getattr_op n) s h = getattr-Stays k r.config files r n s h
  run-IsFaithful files (open_op n flags) s h = open_node-Stays k r.config files r n flags s h
  run-IsFaithful files (getattr_fd_op fh) s h = getattr_fd-Stays k r.config files fh s h
  run-IsFaithful files (release_op fh) s h = h
  run-IsFaithful files (create_op n name flags mode) s h =
      create-Stays k r.config files r n name flags mode s h
  run-IsFaithful files (mkdir_op n name mode) s h = mkdir-Stays k r.config files r n name mode s h
  run-IsFaithful files (unlink_op n name) s h = unlink-Stays k r.config files r n name s h
  run-IsFaithful files (rmdir_op n name) s h = rmdir-Stays k r.config files r n name s h
  run-IsFaithful files (symlink_op n target name) s h =
      symlink-Stays k r.config files r n target name s h
  run-IsFaithful files (link_op n target name) s h = link-Stays k r.config files r n target name s h
  run-IsFaithful files (setattr_op n fh a) s h = setattr-Stays k r.config files r n fh a s h

-- In every state that a history of calls comes to, in which each read is of a file of at most 64 KB,
-- succeeds and finds what its path and file time stand for, each content that is cached is what a reader
-- is to see of the file that its path and time stand for, and each file that is marked to be skipped is
-- shown as it is.
pub Reaches-IsFaithful :
    (k : Kernel) (r : Root) (files : Files) (s : State k)
    → Reaches k r files s
    → IsFaithful r.config files s.1
unfolding Answers
Reaches-IsFaithful k r files s (start w) = new_caches-IsFaithful k r files
Reaches-IsFaithful k r files s (outside w' h) = Reaches-IsFaithful k r files _ h
Reaches-IsFaithful k r files s (calls op h) =
    run-IsFaithful k r files op _ (Reaches-IsFaithful k r files _ h)
Reaches-IsFaithful k r files s (reads fh st content text n off t small open_as stands seen h) =
    (read-view k r files fh _ _ st content text n off t small open_as stands seen
      (Reaches-IsFaithful k r files _ h)).2
Reaches-IsFaithful k r files s (writes fh sent off same h) =
    write-IsFaithful k r _ files fh sent off _ same (Reaches-IsFaithful k r _ _ h)
Reaches-IsFaithful k r files s (renames n name np new_name old_path new_path e f same h) =
    rename-IsFaithful k r _ files n name np new_name old_path new_path _ e f same
      (Reaches-IsFaithful k r _ _ h)
