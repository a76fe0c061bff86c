-- ===== src/Run/Env.antt =====
-- internal/run/env.go: the environment and the limits of the container. A function that appends to
-- `*cmd` is modelled by the arguments that it appends; log lines are left out.
pub mod Keys
use ccbox.Common.{
  ℕ, ◌+◌, ◌≡◌, Bool, true, false, not, ◌&&◌, ◌||◌, Option, none, some, List, [], ◌∷◌, ◌++◌, leb,
  ◌==◌, if◌then◌else◌, Bytes, codes, equal, strip_prefix,
}
use ccbox.Fuse.Config.{cut}
use ccbox.Paths.Defs.{is_letter}
use ccbox.Run.Host.{
  Host, Credentials, RunOptions, ContainerConstraints, constraints, is_set, or_default,
  get_terminal_size, get_host_user_ids, needs_fuse,
}

-- `"-e", name+"="+value`
unfoldable pub env_arg : Bytes → Bytes → List Bytes
env_arg name value = codes "-e" ∷ (name ++ b'=' ∷ value) ∷ []

-- The same for a value that is not empty.
unfoldable pub env_if_set : Bytes → Bytes → List Bytes
unfolding env_arg is_set
env_if_set name value = if is_set value then env_arg name value else []

unfoldable pub add_git_env : Host → List Bytes
unfolding env_if_set
add_git_env h =
    env_if_set (codes "GIT_AUTHOR_NAME") h.credentials.name
    ++ (env_if_set (codes "GIT_COMMITTER_NAME") h.credentials.name
        ++ (env_if_set (codes "GIT_AUTHOR_EMAIL") h.credentials.email
            ++ env_if_set (codes "GIT_COMMITTER_EMAIL") h.credentials.email))

-- `secrets = append(secrets, name+"="+value)` for a value that is not empty.
unfoldable pub secret : Bytes → Bytes → List Bytes
unfolding is_set
secret name value = if is_set value then (name ++ b'=' ∷ value) ∷ [] else []

unfoldable pub git_secrets : Host → List Bytes
unfolding secret
git_secrets h = secret (codes "GITHUB_TOKEN") h.credentials.token

abbrev pub win_ssh_pipe : Bytes
win_ssh_pipe = codes "\\\\.\\pipe\\openssh-ssh-agent"

unfoldable pub add_ssh_agent : Host → List Bytes
unfolding equal is_set env_arg
add_ssh_agent h =
    let sock = h.getenv (codes "SSH_AUTH_SOCK") in
    if not (is_set sock) && equal h.goos (codes "windows") && h.stat win_ssh_pipe
    then codes "-v"
      ∷ (win_ssh_pipe ++ codes ":/run/ssh-agent.sock:ro")
      ∷ env_arg (codes "SSH_AUTH_SOCK") (codes "/run/ssh-agent.sock")
    else if not (is_set sock) || not (h.stat sock)
    then []
    else codes "-v" ∷ (sock ++ b':' ∷ (sock ++ codes ":ro")) ∷ env_arg (codes "SSH_AUTH_SOCK") sock

abbrev pub passthrough_vars : List Bytes
passthrough_vars =
    codes "TERM_PROGRAM"
    ∷ codes "TERM_PROGRAM_VERSION"
    ∷ codes "ITERM_SESSION_ID"
    ∷ codes "ITERM_PROFILE"
    ∷ codes "KITTY_WINDOW_ID"
    ∷ codes "KITTY_PID"
    ∷ codes "WEZTERM_PANE"
    ∷ codes "WEZTERM_UNIX_SOCKET"
    ∷ codes "GHOSTTY_RESOURCES_DIR"
    ∷ codes "ALACRITTY_SOCKET"
    ∷ codes "ALACRITTY_LOG"
    ∷ codes "VSCODE_GIT_IPC_HANDLE"
    ∷ codes "VSCODE_INJECTION"
    ∷ codes "WT_SESSION"
    ∷ codes "WT_PROFILE_ID"
    ∷ codes "KONSOLE_VERSION"
    ∷ codes "KONSOLE_DBUS_SESSION"
    ∷ codes "TMUX"
    ∷ codes "TMUX_PANE"
    ∷ codes "STY"
    ∷ []

unfoldable pub pass_through : Host → List Bytes → List Bytes
unfolding env_if_set
pass_through h [] = []
pass_through h (var ∷ vars) = env_if_set var (h.getenv var) ++ pass_through h vars

unfoldable pub add_terminal_env : Host → List Bytes
unfolding env_arg or_default
add_terminal_env h =
    let (columns, lines) = get_terminal_size h in
    env_arg (codes "TERM") (or_default (h.getenv (codes "TERM")) (codes "xterm-256color"))
    ++ (env_arg (codes "COLORTERM") (or_default (h.getenv (codes "COLORTERM")) (codes "truecolor"))
        ++ (env_arg (codes "COLUMNS") (h.decimal columns)
            ++ (env_arg (codes "LINES") (h.decimal lines) ++ pass_through h passthrough_vars)))

unfoldable pub add_user_mapping : Host → List Bytes
unfolding env_arg get_host_user_ids
add_user_mapping h =
    let (uid, gid) = get_host_user_ids h in
    env_arg (codes "CCBOX_UID") (h.decimal uid) ++ env_arg (codes "CCBOX_GID") (h.decimal gid)

unfoldable pub add_container_essentials : Host → List Bytes
add_container_essentials h =
    (codes "--pids-limit=" ++ h.decimal (constraints h).pids_limit)
    ∷ codes "--init"
    ∷ (codes "--shm-size=" ++ (constraints h).shm)
    ∷ codes "--ulimit"
    ∷ codes "nofile=65535:65535"
    ∷ codes "--memory-swappiness=0"
    ∷ []

-- `networkPolicy != "" && networkPolicy != "full"`
unfoldable pub is_restricted : Bytes → Bool
unfolding is_set equal
is_restricted policy = is_set policy && not (equal policy (codes "full"))

unfoldable pub add_capability_restrictions : Host → Bytes → List Bytes
add_capability_restrictions h network_policy =
    (codes "--cap-drop=" ++ (constraints h).cap_drop)
    ∷ codes "--cap-add=SETUID"
    ∷ codes "--cap-add=SETGID"
    ∷ codes "--cap-add=CHOWN"
    ∷ ((if needs_fuse h then codes "--cap-add=SYS_ADMIN" ∷ [] else [])
        ++ ((if is_restricted network_policy then codes "--cap-add=NET_ADMIN" ∷ [] else [])
            ++ codes "--security-opt=no-new-privileges" ∷ []))

unfoldable pub add_tmpfs_mounts : Host → List Bytes
add_tmpfs_mounts h =
    codes "--tmpfs"
    ∷ (codes "/tmp:rw,size=" ++ ((constraints h).tmp ++ codes ",mode=1777,noexec,nosuid,nodev"))
    ∷ codes "--tmpfs"
    ∷ (codes "/var/tmp:rw,size="
        ++ ((constraints h).var_tmp ++ codes ",mode=1777,noexec,nosuid,nodev"))
    ∷ codes "--tmpfs"
    ∷ (codes "/run:rw,size=" ++ ((constraints h).run ++ codes ",mode=755"))
    ∷ []

abbrev pub add_log_options : List Bytes
add_log_options =
    codes "--log-driver"
    ∷ codes "json-file"
    ∷ codes "--log-opt"
    ∷ codes "max-size=10m"
    ∷ codes "--log-opt"
    ∷ codes "max-file=3"
    ∷ codes "--log-opt"
    ∷ codes "compress=true"
    ∷ []

abbrev pub add_dns_options : List Bytes
add_dns_options =
    codes "--dns-opt"
    ∷ codes "ndots:1"
    ∷ codes "--dns-opt"
    ∷ codes "timeout:1"
    ∷ codes "--dns-opt"
    ∷ codes "attempts:1"
    ∷ []

abbrev pub auth_vars : List Bytes
auth_vars =
    codes "ANTHROPIC_API_KEY" ∷ codes "CLAUDE_CODE_API_KEY" ∷ codes "CLAUDE_CODE_OAUTH_TOKEN" ∷ []

unfoldable pub auth_secrets : Host → List Bytes → List Bytes
unfolding secret
auth_secrets h [] = []
auth_secrets h (var ∷ vars) = secret var (h.getenv var) ++ auth_secrets h vars

abbrev pub claude_vars : List Bytes
claude_vars =
    codes "FORCE_COLOR=1"
    ∷ codes "CLAUDE_CODE_DISABLE_NONESSENTIAL_TRAFFIC=1"
    ∷ codes "CLAUDE_CODE_HIDE_ACCOUNT_INFO=1"
    ∷ codes "CLAUDE_CODE_IDE_SKIP_AUTO_INSTALL=1"
    ∷ codes "CLAUDE_AUTOCOMPACT_PCT_OVERRIDE=85"
    ∷ codes "CLAUDE_BASH_MAINTAIN_PROJECT_WORKING_DIR=1"
    ∷ codes "BASH_DEFAULT_TIMEOUT_MS=600000"
    ∷ codes "BASH_MAX_TIMEOUT_MS=1800000"
    ∷ codes "DISABLE_NON_ESSENTIAL_MODEL_CALLS=1"
    ∷ codes "FORCE_AUTOUPDATE_PLUGINS=0"
    ∷ codes "DISABLE_AUTOUPDATER=1"
    ∷ codes "PYTHONUNBUFFERED=1"
    ∷ codes "DO_NOT_TRACK=1"
    ∷ codes "BUN_RUNTIME_TRANSPILER_CACHE_PATH=0"
    ∷ codes "CLAUDE_CODE_DISABLE_FEEDBACK_SURVEY=1"
    ∷ codes "DISABLE_TELEMETRY=1"
    ∷ codes "DISABLE_ERROR_REPORTING=1"
    ∷ codes "DISABLE_INSTALLATION_CHECKS=1"
    ∷ codes "ENABLE_TOOL_SEARCH=auto:5"
    ∷ codes "MAX_MCP_OUTPUT_TOKENS=12000"
    ∷ codes "BASH_MAX_OUTPUT_LENGTH=50000"
    ∷ []

unfoldable pub each_env : List Bytes → List Bytes
each_env [] = []
each_env (e ∷ es) = codes "-e" ∷ e ∷ each_env es

unfoldable pub add_claude_env : Host → List Bytes
unfolding env_arg each_env
add_claude_env h = env_arg (codes "TZ") h.timezone ++ each_env claude_vars

-- `EnvVarKeyRe`
unfoldable pub is_key_start : ℕ → Bool
unfolding is_letter
is_key_start c = is_letter c || c == b'_'

unfoldable pub is_key_byte : ℕ → Bool
unfolding is_key_start
is_key_byte c = is_key_start c || (leb b'0' c && leb c b'9')

all_key_bytes : Bytes → Bool
unfolding is_key_byte
all_key_bytes [] = true
all_key_bytes (c ∷ s) = is_key_byte c && all_key_bytes s

unfoldable pub is_key : Bytes → Bool
unfolding is_key_start all_key_bytes
is_key [] = false
is_key (c ∷ s) = is_key_start c && all_key_bytes s

unfoldable pub parse_env_var : Bytes → Option (Bytes × Bytes)
unfolding cut is_key
parse_env_var env_var = elim (cut b'=' env_var) [
  | none ↦ none
  | some (key, value) ↦ if is_key key then some (key, value) else none
]

-- `writeSecretsEnvFile`: the error, or the file's path, empty where there are no secrets; and the
-- files left behind with their lines.
pub data EnvFile : Type 0 where
  failed : EnvFile
  no_file : EnvFile
  written : Bytes → List Bytes → EnvFile

unfoldable pub write_secrets_env_file : Host → List Bytes → EnvFile
write_secrets_env_file h [] = no_file
write_secrets_env_file h (s ∷ secrets) = elim h.create_temp [
  | none ↦ failed
  | some path ↦
      if h.chmod path && h.write_secrets path && h.close path
      then written path (s ∷ secrets)
      else failed
]

-- `encodePathForSession`
abbrev pub encode_byte : ℕ → ℕ
encode_byte c = if c == b':' || c == b'/' || c == b'\\' || c == b'.' || c == b' ' then b'-' else c

unfoldable pub encode_path_for_session : Bytes → Bytes
encode_path_for_session [] = []
encode_path_for_session (c ∷ s) = encode_byte c ∷ encode_path_for_session s
