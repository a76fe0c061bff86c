-- ===== src/Run/Mounts.antt =====
-- internal/run/mounts.go: the volume mounts of the configuration and of a git worktree.
pub mod Worktree
use ccbox.Common.{
  ℕ, zero, suc, ◌+◌, ◌-◌, ◌≡◌, Bool, true, false, not, ◌&&◌, ◌||◌, inl, inr, Option, none, some,
  List, [], ◌∷◌, ◌++◌, map, ◌==◌, if◌then◌else◌, Bytes, codes, strip_prefix,
}
use ccbox.Fuse.Config.{trim_space}
use ccbox.Paths.Defs.{
  PathError, to_slash, resolve_for_docker, drive_letter_to_container_path, one_line,
}
use ccbox.Run.Host.{Host, get_host_user_ids}
use ccbox.Run.Env.{env_arg}

-- `strings.Index(s, p)`
unfoldable pub index : Bytes → Bytes → Option ℕ
index p [] = elim (strip_prefix p []) [ none ↦ none | some rest ↦ some 0 ]
index p (c ∷ s) = elim (strip_prefix p (c ∷ s)) [
  | some rest ↦ some 0
  | none ↦ elim (index p s) [ none ↦ none | some i ↦ some (i + 1) ]
]

-- `s[:n]`
unfoldable pub take_bytes : ℕ → Bytes → Bytes
take_bytes zero s = []
take_bytes (suc n) [] = []
take_bytes (suc n) (c ∷ s) = c ∷ take_bytes n s

-- The regular expression's `\s`.
abbrev is_white : ℕ → Bool
is_white c = c == b'\t' || c == b'\n' || c == 12 || c == b'\r' || c == b' '

skip_white : Bytes → Bytes
skip_white [] = []
skip_white (c ∷ s) = let rest = skip_white s in if is_white c then rest else c ∷ s

nonempty_line : Bytes → Option Bytes
unfolding one_line
nonempty_line [] = none
nonempty_line (c ∷ s) = if one_line (c ∷ s) then some (c ∷ s) else none

-- `^gitdir:\s*(.+)$` on a text without white space at its ends.
unfoldable pub match_gitdir : Bytes → Option Bytes
unfolding skip_white nonempty_line
match_gitdir content = elim (strip_prefix (codes "gitdir:") content) [
  | none ↦ none
  | some rest ↦ nonempty_line (skip_white rest)
]

-- `"-v", dockerGitDir+":"+containerGitDir+":rw"`
unfoldable pub volume_arg : Bytes → Bytes → List Bytes
volume_arg from to = codes "-v" ∷ (from ++ b':' ∷ (to ++ codes ":rw")) ∷ []

-- The mount of the main repository's `.git`, unless it lies below the project.
unfoldable pub mount_git_dir : Bytes → Bytes → List Bytes
unfolding volume_arg
mount_git_dir abs_project_path main_git_dir = elim (resolve_for_docker main_git_dir) [
  | inl e ↦ []
  | inr docker_git_dir ↦ elim (strip_prefix abs_project_path main_git_dir) [
    | some rest ↦ []
    | none ↦ volume_arg docker_git_dir (drive_letter_to_container_path docker_git_dir)
  ]
]

unfoldable pub mount_worktree : Bytes → Bytes → List Bytes
mount_worktree abs_project_path worktree_git_dir =
    elim (index (codes "/.git/worktrees/") (map to_slash worktree_git_dir)) [
      | none ↦ []
      | some i ↦ mount_git_dir abs_project_path (take_bytes (i + 5) worktree_git_dir)
    ]

unfoldable pub add_worktree_mount : Host → Bytes → Bytes → List Bytes
add_worktree_mount h abs_project_path git_path = elim (h.read_file git_path) [
  | none ↦ []
  | some content ↦ elim (match_gitdir (trim_space content)) [
    | none ↦ []
    | some gitdir ↦
        mount_worktree abs_project_path (h.filepath_clean (h.filepath_join abs_project_path gitdir))
  ]
]

-- A mount of the file, where its path resolves.
unfoldable pub mount_file : Bytes → Bytes → List Bytes
unfolding volume_arg
mount_file host_file to = elim (resolve_for_docker host_file) [
  | inl e ↦ []
  | inr docker_path ↦ volume_arg docker_path to
]

unfoldable pub essential_mounts : Host → Bytes → List Bytes → List Bytes
unfolding mount_file
essential_mounts h claude_config [] = []
essential_mounts h claude_config (f ∷ fs) =
    let file = h.filepath_join claude_config f in
    (if h.stat file then mount_file file (codes "/ccbox/.claude/" ++ f) else [])
    ++ essential_mounts h claude_config fs

abbrev pub essential_files : List Bytes
essential_files =
    codes ".credentials.json" ∷ codes "settings.json" ∷ codes "settings.local.json" ∷ []

-- The files that are created, with `{}` in them, where they do not exist.
unfoldable pub create_missing : Host → Bytes → List Bytes
create_missing h path = if h.is_not_exist path then path ∷ [] else []

abbrev pub claude_json_home : Host → Bytes → Bytes
claude_json_home h claude_config =
    h.filepath_join (h.filepath_dir claude_config) (codes ".claude.json")

abbrev pub claude_json_config : Host → Bytes → Bytes
claude_json_config h claude_config = h.filepath_join claude_config (codes ".claude.json")

unfoldable pub mount_claude_json : Host → Bytes → List Bytes
unfolding mount_file
mount_claude_json h claude_config =
    mount_file (claude_json_home h claude_config) (codes "/ccbox/.claude.json")
    ++ mount_file (claude_json_config h claude_config) (codes "/ccbox/.claude/.claude.json")

unfoldable pub add_minimal_mounts : Host → Bytes → List Bytes
unfolding essential_mounts mount_claude_json env_arg get_host_user_ids
add_minimal_mounts h claude_config =
    let (uid, gid) = get_host_user_ids h in
    codes "--tmpfs"
    ∷ (codes "/ccbox/.claude:rw,size=64m,uid="
        ++ (h.decimal uid ++ (codes ",gid=" ++ (h.decimal gid ++ codes ",mode=0755"))))
    ∷ (essential_mounts h claude_config essential_files
        ++ (mount_claude_json h claude_config ++ env_arg (codes "CCBOX_MINIMAL_MOUNT") (codes "1")))

unfoldable pub add_claude_json_mount : Host → Bytes → List Bytes
unfolding mount_file
add_claude_json_mount h claude_config =
    mount_file (claude_json_home h claude_config) (codes "/ccbox/.claude.json")

-- The files that the two functions above create.
unfoldable pub created_files : Host → Bool → Bytes → List Bytes
unfolding create_missing
created_files h fresh claude_config =
    create_missing h (claude_json_home h claude_config)
    ++ (if fresh then create_missing h (claude_json_config h claude_config) else [])

abbrev pub overlays : List (Bytes × Bytes)
overlays =
    (codes "/etc", codes "rw,size=8m,mode=755")
    ∷ (codes "/root", codes "rw,size=8m,mode=700")
    ∷ (codes "/usr/local/bin", codes "rw,size=16m,mode=755")
    ∷ (codes "/ccbox/.cache", codes "rw,size=256m,mode=755")
    ∷ (codes "/ccbox/.npm", codes "rw,size=64m,mode=755")
    ∷ (codes "/ccbox/.local", codes "rw,size=32m,mode=755")
    ∷ (codes "/ccbox/.config", codes "rw,size=16m,mode=755")
    ∷ []

unfoldable pub tmpfs_args : List (Bytes × Bytes) → List Bytes
tmpfs_args [] = []
tmpfs_args ((path, opts) ∷ rest) = codes "--tmpfs" ∷ (path ++ b':' ∷ opts) ∷ tmpfs_args rest

unfoldable pub add_read_only_root : Host → List Bytes
unfolding tmpfs_args
add_read_only_root h = codes "--read-only" ∷ tmpfs_args (h.shuffle overlays)
