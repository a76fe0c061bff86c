-- ===== src/Fuse/NodeExamples.antt =====
-- The theorems on the file system's calls at a kernel that keeps one file in memory.
use ccbox.Common.{
  ◌+◌, ◌<◌, ◌≡◌, refl, true, false, none, some, [], ◌∷◌, ◌++◌, map, arith, Bytes, codes, equal,
  done, length, strip_prefix,
}
use ccbox.Fuse.Config.{Config, DirMapping, is_alpha, to_lower_byte}
use ccbox.Fuse.Transform.{transform_to_container, transform_to_host, escape_seps, in_path}
use ccbox.Fuse.Transform.RoundTrip.{drive_mapping}
use ccbox.Fuse.PathUtil.{get_source_path}
use ccbox.Fuse.PathUtil.Segments.{join, to_native}
use ccbox.Fuse.QuickScan.{
  quick_scan_has_mappings, scan_mappings, scan_mapping, has_drive, clear_case, set_case, scan_dirs,
}
use ccbox.Paths.Defs.{contains_bytes}
use ccbox.Fuse.QuickScan.Sound.{transform_to_container-quick_scan}
use ccbox.Fuse.Cache.Neg
use ccbox.Fuse.Cache.Neg.Laws.{lookup-insert_all}
use ccbox.Fuse.Node.Kernel.{Kernel, Stat, FileInfo, ok, err, Root, Node, Caches, FileHandle, enoent}
use ccbox.Fuse.Node.Handle.{slice, pad, overwrite, or_self, read, write}
use ccbox.Fuse.Node.Tree.{
  child_path, fuse_path, source_path, dir_entry, entry_mode, is_hidden, shown_name, has_name,
  list_entry, lookup,
}
use ccbox.Fuse.Node.Change.{create, symlink}
use ccbox.Fuse.Node.Faithful.{view, Files, IsFaithful}
use ccbox.Fuse.Node.Reads.{OpenAs, Answers, read-view}
use ccbox.Fuse.Node.Missing.{lookup-create, lookup-symlink}
use ccbox.Fuse.Node.Disk.{IsDisk}
use ccbox.Fuse.Node.WriteRead.{write-read}
use ccbox.Fuse.Node.Chunks.{write-overwrite}
use ccbox.Fuse.Node.Listing.{source_path-list_entry}
use ccbox.Fuse.Node.History.{new_caches, Reaches, start, reads, Reaches-IsFaithful}

abbrev stat_of : Bytes → Stat
stat_of w = record { is_reg = true; size = length w; mtime_sec = 1; mtime_ns = 2 }

-- The world is the content of the one file.
abbrev memory : Kernel
memory = record {
  World = Bytes;
  now = λ w. 5;
  caller = λ w. none;
  lstat = λ w p. ok (stat_of w);
  stat = λ w p. ok (stat_of w);
  fstat = λ w fd. ok (stat_of w);
  pread = λ w fd n off. ok (slice w off n);
  readdir = λ w p. ok [];
  readlink = λ w p n. ok [];
  access = λ w p m. ok tt;
  open_file = λ w p f m. (w, ok 3);
  close = λ w fd. w;
  dup = λ w fd. (w, ok fd);
  pwrite = λ w fd s off. (overwrite w off s, ok (length s));
  ftruncate = λ w fd n. (pad n w, ok tt);
  truncate = λ w p n. (pad n w, ok tt);
  flock = λ w fd b. (w, ok tt);
  fsync = λ w fd. (w, ok tt);
  fdatasync = λ w fd. (w, ok tt);
  fchown = λ w fd u g. (w, ok tt);
  chown = λ w p u g. (w, ok tt);
  lchown = λ w p u g. (w, ok tt);
  chmod = λ w p m. (w, ok tt);
  utimes = λ w p a m. (w, ok tt);
  mkdir = λ w p m. (w, ok tt);
  unlink = λ w p. (w, ok tt);
  rmdir = λ w p. (w, ok tt);
  rename = λ w p q. (w, ok tt);
  symlink = λ w p q. (w, ok tt);
  link = λ w p q. (w, ok tt);
  to_lower = λ s. s;
}

memory-IsDisk : IsDisk memory 3 (λ w. w)
memory-IsDisk = record {
  fstat = λ w. (stat_of w, refl, refl);
  pread = λ w n off. refl;
  pwrite = λ w s off h. (refl, refl);
  ftruncate = λ w n. (refl, refl);
  flock = λ w b. (refl, refl);
}

abbrev config_c : Config
config_c = record {
  source_dir = codes "/src";
  path_mappings = drive_mapping b'C' (codes "/U") (codes "c") ∷ [];
  dir_mappings = [];
  extensions = [];
  trace_level = 0;
}

abbrev root_c : Root
root_c = record { source_dir = codes "/src"; config = config_c }

abbrev file : FileHandle
file = record { fd = 3; needs_transform = true; source_path = codes "/src/a" }

abbrev container_text : Bytes
container_text = codes "[\"/c/a\"]"

abbrev host_text : Bytes
host_text = codes "[\"C:\\\\U\\\\a\"]"

-- Every path and time stands for the host's text.
abbrev host_files : Files
host_files path sec ns = host_text

reached : Reaches memory root_c host_files (host_text, new_caches)
reached = start host_text

abc-quick_scan : quick_scan_has_mappings (codes "abc") config_c.path_mappings [] ≡ false
unfolding quick_scan_has_mappings scan_mappings scan_mapping to_lower_byte has_drive clear_case
    set_case contains_bytes strip_prefix scan_dirs
abc-quick_scan = refl

transform_to_container-quick_scan_example :
    transform_to_container (codes "abc") config_c.path_mappings [] ≡ done none
transform_to_container-quick_scan_example =
    transform_to_container-quick_scan (codes "abc") config_c.path_mappings [] abc-quick_scan

host_text-view : view config_c host_text ≡ done container_text
unfolding view in_path is_alpha to_lower_byte escape_seps transform_to_container or_self
host_text-view = refl

host_text-OpenAs : OpenAs memory host_text 3 (stat_of host_text) host_text
host_text-OpenAs = record { described = refl; sized = refl; readable = λ n off. refl }

new_caches-IsFaithful : IsFaithful config_c host_files new_caches
new_caches-IsFaithful = Reaches-IsFaithful memory root_c host_files (host_text, new_caches) reached

read-view_example :
    Answers memory config_c host_files host_text
      (slice container_text 1 4)
      (read memory root_c file 4 1 (host_text, new_caches))
read-view_example =
    read-view memory root_c host_files file host_text new_caches (stat_of host_text) host_text
      container_text 4 1 refl (omega arith) host_text-OpenAs refl host_text-view
      new_caches-IsFaithful

Reaches-IsFaithful_example :
    IsFaithful config_c host_files (read memory root_c file 4 1 (host_text, new_caches)).1.1
Reaches-IsFaithful_example =
    Reaches-IsFaithful memory root_c host_files
      (read memory root_c file 4 1 (host_text, new_caches)).1
      (reads file (stat_of host_text) host_text container_text 4 1 refl (omega arith)
        host_text-OpenAs refl host_text-view reached)

write-read_example :
    (read memory root_c file 100 0 (write memory root_c file container_text 0 ([], new_caches)).1).0
    ≡ ok container_text
unfolding is_alpha escape_seps in_path
write-read_example =
    write-read memory root_c host_files file (λ w. w) b'C' (codes "/U") (codes "c") (codes "/a") []
      100 ([], new_caches) memory-IsDisk refl refl refl refl ((refl, refl), ((refl, refl), tt))
      ((refl, ((refl, refl), tt)), tt) (omega arith) (omega arith) new_caches-IsFaithful

container_text-transform_to_host :
    transform_to_host container_text config_c.path_mappings [] ≡ done (some host_text)
unfolding transform_to_host in_path is_alpha to_lower_byte escape_seps
container_text-transform_to_host = refl

x-transform_to_host : transform_to_host (codes "x") config_c.path_mappings [] ≡ done none
unfolding transform_to_host in_path is_alpha to_lower_byte escape_seps
x-transform_to_host = refl

-- The first piece is stored as 12 bytes, and the second then stands at 8.
write-overwrite_example :
    ((write memory root_c file
        (codes "x")
        8
        (write memory root_c file container_text 0 ([], new_caches)).1).1.0
      ≡ overwrite host_text 8 (or_self none (codes "x")))
    × (length
          (write memory root_c file
            (codes "x")
            8
            (write memory root_c file container_text 0 ([], new_caches)).1).1.0
        < length host_text + length (or_self none (codes "x")))
unfolding or_self
write-overwrite_example =
    write-overwrite memory root_c file (λ w. w) container_text host_text (codes "x") none
      ([], new_caches) memory-IsDisk refl container_text-transform_to_host x-transform_to_host
      (omega arith) (omega arith) (omega arith)

abbrev top : Node
top = record { path = [] }

top-source_path : source_path root_c top (codes "b") ≡ done (codes "/src/b")
unfolding source_path get_source_path fuse_path child_path
top-source_path = refl

lookup-create_example :
    (attr : Stat) × ((lookup memory root_c top
        (codes "b")
        (create memory root_c top (codes "b") 0 0 (host_text, new_caches)).1).0
      ≡ ok (record { path = codes "b" }, attr))
unfolding child_path
lookup-create_example =
    lookup-create memory root_c top (codes "b") (codes "/src/b") 0 0
      (stat_of (create memory root_c top (codes "b") 0 0 (host_text, new_caches)).1.0)
      (host_text, new_caches) top-source_path refl

-- The caches where `/src/b` is remembered as missing.
abbrev missing_b : Caches
missing_b = record new_caches { neg_cache = Neg.insert new_caches.neg_cache (codes "/src/b") 5 }

missing_b-lookup : Neg.lookup missing_b.neg_cache (codes "/src/b") 5 ≡ true
missing_b-lookup =
    lookup-insert_all new_caches.neg_cache (codes "/src/b") 5 5 [] refl (omega arith) (omega arith)

lookup-symlink_example :
    (lookup memory root_c top
      (codes "b")
      (symlink memory root_c top (codes "t") (codes "b") (host_text, missing_b)).1).0
    ≡ err enoent
lookup-symlink_example =
    lookup-symlink memory root_c top (codes "t") (codes "b") (codes "/src/b") (host_text, missing_b)
      top-source_path missing_b-lookup

abbrev encoded : DirMapping
encoded = record { container_name = codes "-D-x"; native_name = codes "D--x" }

abbrev root_d : Root
root_d = record {
  source_dir = codes "/src";
  config = record config_c { dir_mappings = encoded ∷ [] };
}

abbrev native_dir : FileInfo
native_dir = record { name = codes "D--x"; is_dir = true; is_symlink = false }

native_dir-list_entry :
    list_entry (native_dir ∷ []) (encoded ∷ []) native_dir
    ≡ some (record { name = codes "-D-x"; mode = dir_entry })
unfolding list_entry is_hidden shown_name equal strip_prefix entry_mode
native_dir-list_entry = refl

source_path-list_entry_example :
    source_path root_d (record { path = codes "p" }) (codes "-D-x")
    ≡ done (
        codes "/src"
        ++ (join (map (to_native (encoded ∷ [])) (codes "p" ∷ [])) ++ b'/' ∷ codes "D--x"))
unfolding has_name equal
source_path-list_entry_example =
    source_path-list_entry root_d (record { path = codes "p" }) (codes "p" ∷ []) (native_dir ∷ [])
      native_dir (record { name = codes "-D-x"; mode = dir_entry }) refl
      ((((refl, refl), tt), omega arith), tt)
      (((refl, refl), ((refl, refl), ((refl, refl), ((refl, refl), tt)))), tt) (tt, tt)
      ((λ e. refl), tt)
      (((refl, refl), ((refl, refl), ((refl, refl), ((refl, refl), tt)))), omega arith)
      native_dir-list_entry
