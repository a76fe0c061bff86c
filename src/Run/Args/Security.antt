-- ===== src/Run/Args/Security.antt =====
-- What the arguments show of the secrets.
use ccbox.Common.{
  ℕ, ◌≡◌, refl, sym, ap, ◌∙◌, inl, inr, Bool, true, false, ◌&&◌, ◌||◌, Option, none, some, List, [],
  ◌∷◌, ◌++◌, arith, if◌then◌else◌, Bytes, codes, equal, Bool-cases, Option-cases,
}
use ccbox.Stacks.Defs.{LanguageStack}
use ccbox.Run.Host.{
  Host, RunOptions, is_wsl, detect_host, needs_fuse, needs_privileged_for_fuse, positive_env,
  constraints, get_terminal_size, get_host_user_ids,
}
use ccbox.Run.Env.{
  add_ssh_agent, pass_through, passthrough_vars, add_terminal_env, add_container_essentials,
  add_capability_restrictions, add_tmpfs_mounts, add_user_mapping, add_git_env, add_claude_env,
  write_secrets_env_file,
}
use ccbox.Run.Mounts.{
  add_read_only_root, add_worktree_mount, add_minimal_mounts, add_claude_json_mount,
}
use ccbox.Run.Claude.{build_claude_args}
use ccbox.Run.Args.{
  DockerRunConfig, Resolved, security_args, fuse_args, claude_mounts, system_args, environment_args,
  project_args, option_args, secrets, assemble, uses_privileged, add_resource_limits, debug_args,
  env_file_args, claude_options, build_docker_run_config, resolve, get_claude_config_dir,
}

-- The host with other values of the variables and another token.
abbrev pub with_secrets : Host → (Bytes → Bytes) → Bytes → Host
with_secrets h env token = record h {
  getenv = env;
  credentials = record { name = h.credentials.name; email = h.credentials.email; token = token };
}

-- The variables that hold keys.
unfoldable pub is_auth : Bytes → Bool
unfolding equal
is_auth var =
    equal var (codes "ANTHROPIC_API_KEY")
    || equal var (codes "CLAUDE_CODE_API_KEY")
    || equal var (codes "CLAUDE_CODE_OAUTH_TOKEN")

-- The two hosts have the same variables, but for those that hold keys.
abbrev pub Agrees : Host → (Bytes → Bytes) → Type 0
Agrees h env = (var : Bytes) → is_auth var ≡ false → h.getenv var ≡ env var

none_auth : List Bytes → Bool
unfolding is_auth
none_auth [] = true
none_auth (v ∷ vs) = if is_auth v then false else none_auth vs

module _ (h : Host) (env : Bytes → Bytes) (token : Bytes) (a : Agrees h env) where
  pass_through-Agrees :
      (vars : List Bytes)
      → none_auth vars ≡ true
      → pass_through h vars ≡ pass_through (with_secrets h env token) vars
  unfolding pass_through none_auth
  pass_through-Agrees [] p = refl
  pass_through-Agrees (v ∷ vs) p = elim (Bool-cases (is_auth v)) [
    | inl e ↦ absurd (ground (arith, (rw (e, none_auth) at p)))
    | inr e ↦ rw (a v e, pass_through-Agrees vs (rw (e, none_auth) at p)) refl
  ]

  positive_env-Agrees :
      (var : Bytes) (fallback : ℕ)
      → is_auth var ≡ false
      → positive_env h var fallback ≡ positive_env (with_secrets h env token) var fallback
  unfolding positive_env
  positive_env-Agrees var fallback e = rw (a var e, positive_env) refl

  constraints-Agrees : constraints h ≡ constraints (with_secrets h env token)
  unfolding constraints is_auth
  constraints-Agrees =
      rw
        (
          positive_env-Agrees (codes "CCBOX_PIDS_LIMIT") 2048 refl,
          a (codes "CCBOX_TMP_SIZE") refl,
          a (codes "CCBOX_SHM_SIZE") refl,
        )
        refl

  is_wsl-Agrees : is_wsl h ≡ is_wsl (with_secrets h env token)
  unfolding is_wsl is_auth
  is_wsl-Agrees = rw (a (codes "WSL_DISTRO_NAME") refl, a (codes "WSLENV") refl) refl

  detect_host-Agrees : detect_host h ≡ detect_host (with_secrets h env token)
  unfolding detect_host
  detect_host-Agrees = rw is_wsl-Agrees refl

  needs_fuse-Agrees : needs_fuse h ≡ needs_fuse (with_secrets h env token)
  unfolding needs_fuse
  needs_fuse-Agrees = rw (detect_host-Agrees, needs_fuse) refl

  privileged-Agrees :
      needs_privileged_for_fuse h ≡ needs_privileged_for_fuse (with_secrets h env token)
  unfolding needs_privileged_for_fuse
  privileged-Agrees = rw detect_host-Agrees refl

  ssh-Agrees : add_ssh_agent h ≡ add_ssh_agent (with_secrets h env token)
  unfolding add_ssh_agent is_auth
  ssh-Agrees = rw (a (codes "SSH_AUTH_SOCK") refl) refl

  passthrough_vars-Agrees :
      pass_through h passthrough_vars ≡ pass_through (with_secrets h env token) passthrough_vars
  unfolding none_auth
  passthrough_vars-Agrees = pass_through-Agrees passthrough_vars refl

  terminal-Agrees : add_terminal_env h ≡ add_terminal_env (with_secrets h env token)
  unfolding add_terminal_env is_auth get_terminal_size
  terminal-Agrees =
      rw
        (
          a (codes "TERM") refl,
          a (codes "COLORTERM") refl,
          positive_env-Agrees (codes "COLUMNS") 120 refl,
          positive_env-Agrees (codes "LINES") 40 refl,
          passthrough_vars-Agrees,
        )
        refl

  fuse_args-Agrees : fuse_args h ≡ fuse_args (with_secrets h env token)
  unfolding fuse_args
  fuse_args-Agrees = rw (needs_fuse-Agrees, privileged-Agrees) refl

  uses_privileged-Agrees :
      (opts : RunOptions) → uses_privileged h opts ≡ uses_privileged (with_secrets h env token) opts
  unfolding uses_privileged
  uses_privileged-Agrees opts = rw (needs_fuse-Agrees, privileged-Agrees) refl

  capabilities-Agrees :
      (policy : Bytes)
      → add_capability_restrictions h policy
        ≡ add_capability_restrictions (with_secrets h env token) policy
  unfolding add_capability_restrictions
  capabilities-Agrees policy = rw (needs_fuse-Agrees, constraints-Agrees) refl

  security-Agrees :
      (opts : RunOptions) → security_args h opts ≡ security_args (with_secrets h env token) opts
  unfolding security_args add_read_only_root
  security-Agrees opts =
      rw (uses_privileged-Agrees opts, capabilities-Agrees opts.network_policy) refl

  essentials-Agrees :
      add_container_essentials h ≡ add_container_essentials (with_secrets h env token)
  unfolding add_container_essentials
  essentials-Agrees = rw constraints-Agrees refl

  tmpfs-Agrees : add_tmpfs_mounts h ≡ add_tmpfs_mounts (with_secrets h env token)
  unfolding add_tmpfs_mounts
  tmpfs-Agrees = rw constraints-Agrees refl

  system-Agrees :
      (opts : RunOptions) (r : Resolved)
      → system_args h opts r ≡ system_args (with_secrets h env token) opts r
  unfolding system_args add_user_mapping get_host_user_ids add_resource_limits debug_args
  system-Agrees opts r =
      rw (essentials-Agrees, security-Agrees opts, tmpfs-Agrees, needs_fuse-Agrees) refl

  environment-Agrees :
      (opts : RunOptions) (r : Resolved)
      → environment_args h opts r ≡ environment_args (with_secrets h env token) opts r
  unfolding environment_args add_git_env add_claude_env
  environment-Agrees opts r = rw (terminal-Agrees, ssh-Agrees) refl

  project-Agrees :
      (stack : LanguageStack) (name : Bytes) (opts : RunOptions) (r : Resolved)
      → project_args h stack name opts r ≡ project_args (with_secrets h env token) stack name opts r
  unfolding project_args add_worktree_mount
  project-Agrees stack name opts r = refl

  mounts-Agrees :
      (opts : RunOptions) (r : Resolved)
      → claude_mounts h opts r ≡ claude_mounts (with_secrets h env token) opts r
  unfolding claude_mounts add_minimal_mounts add_claude_json_mount
  mounts-Agrees opts r = rw fuse_args-Agrees refl

  option_args-Agrees :
      (stack : LanguageStack) (name : Bytes) (opts : RunOptions) (r : Resolved)
      → option_args h stack name opts r ≡ option_args (with_secrets h env token) stack name opts r
  unfolding option_args
  option_args-Agrees stack name opts r =
      rw
        (
          project-Agrees stack name opts r,
          mounts-Agrees opts r,
          system-Agrees opts r,
          environment-Agrees opts r,
        )
        refl

-- The arguments of a configuration, where there is one.
unfoldable pub args_of : Option DockerRunConfig → Option (List Bytes)
args_of none = none
args_of (some config) = some config.args

unfoldable pub is_nil : List Bytes → Bool
is_nil [] = true
is_nil (x ∷ xs) = false

-- The path of the file does not show what is in it.
env_file-Agrees :
    (h : Host) (env : Bytes → Bytes) (token : Bytes) (xs ys : List Bytes)
    → is_nil xs ≡ is_nil ys
    → env_file_args (write_secrets_env_file h xs)
      ≡ env_file_args (write_secrets_env_file (with_secrets h env token) ys)
unfolding is_nil write_secrets_env_file env_file_args
env_file-Agrees h env token [] [] e = refl
env_file-Agrees h env token [] (y ∷ ys) e = absurd (ground (arith, e))
env_file-Agrees h env token (x ∷ xs) [] e = absurd (ground (arith, e))
env_file-Agrees h env token (x ∷ xs) (y ∷ ys) e = elim (Option-cases h.create_temp) [
  | inl n ↦ rw n refl
  | inr (path, g) ↦ elim (Bool-cases (h.chmod path && h.write_secrets path && h.close path)) [
    | inl b ↦ rw (g, b) refl
    | inr b ↦ rw (g, b) refl
  ]
]

-- The file's arguments between the options and the rest.
around : Option (List Bytes) → List Bytes → List Bytes → Option (List Bytes)
around none options rest = none
around (some file_args) options rest = some (options ++ (file_args ++ rest))

args_of-assemble :
    (h : Host) (stack : LanguageStack) (name : Bytes) (opts : RunOptions) (r : Resolved)
    (files : Option (List Bytes))
    → env_file_args (write_secrets_env_file h (secrets h)) ≡ files
    → args_of (assemble h stack name opts r)
      ≡ around files
          (option_args h stack name opts r)
          (r.image_name ∷ build_claude_args h.prompt (claude_options opts r))
unfolding args_of assemble around
args_of-assemble h stack name opts r none e = rw (e, assemble) refl
args_of-assemble h stack name opts r (some files) e = rw (e, assemble) refl

assemble-Agrees :
    (h : Host) (env : Bytes → Bytes) (token : Bytes) (name : Bytes) (stack : LanguageStack)
    (opts : RunOptions) (r : Resolved)
    → Agrees h env
    → is_nil (secrets h) ≡ is_nil (secrets (with_secrets h env token))
    → args_of (assemble h stack name opts r)
      ≡ args_of (assemble (with_secrets h env token) stack name opts r)
assemble-Agrees h env token name stack opts r a e =
    let files = env_file_args (write_secrets_env_file h (secrets h)) in
    let p = env_file-Agrees h env token (secrets h) (secrets (with_secrets h env token)) e in
    args_of-assemble h stack name opts r files refl
    ∙ ap
        (λ options.
          around files options (r.image_name ∷ build_claude_args h.prompt (claude_options opts r)))
        (option_args-Agrees h env token a stack name opts r)
    ∙ sym (args_of-assemble (with_secrets h env token) stack name opts r files (sym p))

resolve-Agrees :
    (h : Host) (env : Bytes → Bytes) (token : Bytes) (path name : Bytes) (stack : LanguageStack)
    (opts : RunOptions)
    → resolve h stack path name opts ≡ resolve (with_secrets h env token) stack path name opts
unfolding resolve get_claude_config_dir
resolve-Agrees h env token path name stack opts = refl

-- Two hosts that differ in the variables that hold keys and in the git token only, and both have some
-- of them or both have none, are given the same arguments, or both an error.
pub build_docker_run_config-secrets :
    (h : Host) (env : Bytes → Bytes) (token : Bytes) (path name : Bytes) (stack : LanguageStack)
    (opts : RunOptions)
    → Agrees h env
    → is_nil (secrets h) ≡ is_nil (secrets (with_secrets h env token))
    → args_of (build_docker_run_config h path name stack opts)
      ≡ args_of (build_docker_run_config (with_secrets h env token) path name stack opts)
unfolding build_docker_run_config
build_docker_run_config-secrets h env token path name stack opts a e =
    elim (Option-cases (resolve h stack path name opts)) [
      | inl n ↦
          rw (n, sym (resolve-Agrees h env token path name stack opts) ∙ n, build_docker_run_config)
            refl
      | inr (r, g) ↦
          rw (g, sym (resolve-Agrees h env token path name stack opts) ∙ g, build_docker_run_config)
            (assemble-Agrees h env token name stack opts r a e)
    ]
