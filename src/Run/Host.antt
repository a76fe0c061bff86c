-- ===== src/Run/Host.antt =====
-- internal/run/args.go, internal/run/host.go, internal/platform/platform.go: the options of a run and
-- what is asked of the host. `Host` is what the operating system, the standard library and external
-- programs answer; the code only reads it, apart from the files that it creates, which results name.
use ccbox.Common.{
  ℕ, Bool, true, false, ◌&&◌, ◌||◌, Option, none, some, List, [], ◌∷◌, if◌then◌else◌, Bytes, codes,
  equal,
}
use ccbox.Paths.Defs.{contains_bytes}

-- `git.Credentials`
pub record Credentials : Type 0 where
  pub name : Bytes
  pub email : Bytes
  pub token : Bytes

-- `atoi_positive` is `strconv.Atoi` where it succeeds with a number above 0. `write_secrets` says for
-- the temporary file's path whether it can be made private, written and closed. `shuffle` is the order
-- in which a map is walked. `credentials`, `container_name`, `timezone` and `prompt` stand for answers
-- of git and gh, of the random source, of the host's files, and for the text of the prompt.
pub record Host : Type 0 where
  pub goos : Bytes
  pub getenv : Bytes → Bytes
  pub proc_version : Option Bytes
  pub to_lower : Bytes → Bytes
  pub stat : Bytes → Bool
  pub is_not_exist : Bytes → Bool
  pub lstat_is_dir : Bytes → Option Bool
  pub read_file : Bytes → Option Bytes
  pub filepath_abs : Bytes → Option Bytes
  pub filepath_join : Bytes → Bytes → Bytes
  pub filepath_dir : Bytes → Bytes
  pub filepath_clean : Bytes → Bytes
  pub home_dir : Option Bytes
  pub uid : ℕ
  pub gid : ℕ
  pub atoi_positive : Bytes → Option ℕ
  pub decimal : ℕ → Bytes
  pub create_temp : Option Bytes
  pub chmod : Bytes → Bool
  pub write_secrets : Bytes → Bool
  pub close : Bytes → Bool
  pub shuffle : List (Bytes × Bytes) → List (Bytes × Bytes)
  pub environ : List Bytes
  pub credentials : Credentials
  pub container_name : Bytes → Bytes
  pub timezone : Bytes
  pub prompt : Bytes → Bytes

pub data HostPlatform : Type 0 where
  windows_native windows_wsl macos linux : HostPlatform

-- `s != ""`
unfoldable pub is_set : Bytes → Bool
is_set [] = false
is_set (c ∷ s) = true

-- `if v := ...; v != "" { ... }` over a default.
unfoldable pub or_default : Bytes → Bytes → Bytes
or_default [] fallback = fallback
or_default (c ∷ s) fallback = c ∷ s

unfoldable pub is_wsl : Host → Bool
unfolding contains_bytes is_set
is_wsl h =
    (elim h.proc_version [
      | none ↦ false
      | some text ↦ contains_bytes (codes "microsoft") (h.to_lower text)
    ])
    || is_set (h.getenv (codes "WSL_DISTRO_NAME"))
    || is_set (h.getenv (codes "WSLENV"))

unfoldable pub detect_host : Host → HostPlatform
unfolding is_wsl equal
detect_host h =
    if equal h.goos (codes "windows")
    then windows_native
    else if equal h.goos (codes "darwin")
    then macos
    else if equal h.goos (codes "linux") && is_wsl h
    then windows_wsl
    else linux

unfoldable pub is_windows : HostPlatform → Bool
is_windows windows_native = true
is_windows _ = false

unfoldable pub needs_fuse : Host → Bool
needs_fuse h = elim (detect_host h) [
  | windows_native ↦ true
  | windows_wsl ↦ true
  | macos ↦ false
  | linux ↦ false
]

unfoldable pub needs_privileged_for_fuse : Host → Bool
unfolding is_windows
needs_privileged_for_fuse h = is_windows (detect_host h)

pub record RunOptions : Type 0 where
  pub fresh : Bool
  pub ephemeral_logs : Bool
  pub debug : ℕ
  pub headless : Bool
  pub project_image : Bytes
  pub unrestricted : Bool
  pub env_vars : List Bytes
  pub claude_args : List Bytes
  pub zero_residue : Bool
  pub memory_limit : Bytes
  pub cpu_limit : Bytes
  pub network_policy : Bytes
  pub read_only : Bool

pub record ContainerConstraints : Type 0 where
  pub pids_limit : ℕ
  pub cap_drop : Bytes
  pub tmp : Bytes
  pub var_tmp : Bytes
  pub run : Bytes
  pub shm : Bytes

abbrev pub default_pids_limit : ℕ
default_pids_limit = 2048

-- An environment variable that holds a positive number, or a default.
unfoldable pub positive_env : Host → Bytes → ℕ → ℕ
positive_env h var fallback = elim (h.getenv var) [
  | [] ↦ fallback
  | c ∷ s ↦ elim (h.atoi_positive (c ∷ s)) [ none ↦ fallback | some n ↦ n ]
]

unfoldable pub constraints : Host → ContainerConstraints
unfolding positive_env or_default
constraints h = record {
  pids_limit = positive_env h (codes "CCBOX_PIDS_LIMIT") default_pids_limit;
  cap_drop = codes "ALL";
  tmp = or_default (h.getenv (codes "CCBOX_TMP_SIZE")) (codes "512m");
  var_tmp = codes "256m";
  run = codes "64m";
  shm = or_default (h.getenv (codes "CCBOX_SHM_SIZE")) (codes "256m");
}

-- `GetHostUserIds`
unfoldable pub get_host_user_ids : Host → ℕ × ℕ
unfolding equal
get_host_user_ids h = if equal h.goos (codes "windows") then (1000, 1000) else (h.uid, h.gid)

-- `GetTerminalSize`
unfoldable pub get_terminal_size : Host → ℕ × ℕ
unfolding positive_env
get_terminal_size h = (positive_env h (codes "COLUMNS") 120, positive_env h (codes "LINES") 40)
