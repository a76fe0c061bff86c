-- ===== src/Run/Args.antt =====
-- internal/run/args.go: the run configuration. The steps are grouped by what they are about, in the
-- order in which the code appends them.
pub mod Security
pub mod Lacks
pub mod Privileges
pub mod CleanPaths
pub mod PathMap
use ccbox.Common.{
  ℕ, ◌≡◌, Bool, true, false, not, ◌&&◌, ◌||◌, inl, inr, Option, none, some, List, [], ◌∷◌, ◌++◌,
  map, leb, ltb, ◌==◌, if◌then◌else◌, Bytes, codes, equal, strip_prefix,
}
use ccbox.Stacks.Defs.{LanguageStack, name}
use ccbox.Images.Defs.{get_image_name}
use ccbox.Paths.Defs.{
  to_slash, resolve_for_docker, drive_letter_to_container_path, match_mount, is_lower,
}
use ccbox.Run.Host.{Host, RunOptions, is_set, or_default, needs_fuse, needs_privileged_for_fuse}
use ccbox.Run.Claude.{ClaudeArgsOptions, build_claude_args}
use ccbox.Run.Env.{
  env_arg, add_git_env, git_secrets, add_ssh_agent, add_terminal_env, add_user_mapping,
  add_container_essentials, is_restricted, add_capability_restrictions, add_tmpfs_mounts,
  add_log_options, add_dns_options, auth_vars, auth_secrets, add_claude_env, parse_env_var, EnvFile,
  failed, no_file, written, write_secrets_env_file, encode_path_for_session,
}
use ccbox.Run.Mounts.{
  volume_arg, add_worktree_mount, add_minimal_mounts, add_claude_json_mount, add_read_only_root,
  created_files,
}

-- `created` lists the files that were created on the host.
pub record DockerRunConfig : Type 0 where
  pub args : List Bytes
  pub env : List Bytes
  pub interactive : Bool
  pub container_name : Bytes
  pub image_name : Bytes
  pub env_file : EnvFile
  pub created : List Bytes

unfoldable pub debug_args : Host → RunOptions → List Bytes
debug_args h opts =
    if ltb 0 opts.debug then env_arg (codes "CCBOX_DEBUG") (h.decimal opts.debug) else []

unfoldable pub limit_args : RunOptions → List Bytes
limit_args opts =
    if opts.unrestricted
    then env_arg (codes "CCBOX_UNRESTRICTED") (codes "1")
    else (codes "--memory=" ++ or_default opts.memory_limit (codes "4g"))
      ∷ (codes "--cpus=" ++ or_default opts.cpu_limit (codes "2.0"))
      ∷ codes "--cpu-shares=512"
      ∷ []

unfoldable pub network_args : RunOptions → List Bytes
network_args opts =
    if is_restricted opts.network_policy
    then env_arg (codes "CCBOX_NETWORK_POLICY") opts.network_policy
      ++ (if equal opts.network_policy (codes "isolated")
          then codes "--network=bridge" ∷ []
          else [])
    else []

unfoldable pub add_resource_limits : Host → RunOptions → List Bytes
add_resource_limits h opts =
    debug_args h opts
    ++ (limit_args opts
        ++ ((if opts.zero_residue then env_arg (codes "CCBOX_ZERO_RESIDUE") (codes "1") else [])
            ++ network_args opts))

-- `strings.Join(pathMappings, ";")`
unfoldable pub join : List Bytes → Bytes
join [] = []
join (m ∷ []) = m
join (m ∷ n ∷ ms) = m ++ b';' ∷ join (n ∷ ms)

-- `wslPathRe.FindStringSubmatch(originalPath) != nil`, the test of a path below `/mnt/<letter>`.
unfoldable pub is_wsl_match : Bytes → Bool
is_wsl_match path = elim (match_mount path) [ none ↦ false | some m ↦ true ]

unfoldable pub path_mappings : Bytes → Bytes → Bytes → Bytes → Bool → List Bytes
path_mappings docker_project host_project original claude_config fresh =
    (if equal docker_project host_project then [] else (docker_project ++ b':' ∷ host_project) ∷ [])
    ++ ((if is_wsl_match original then (original ++ b':' ∷ host_project) ∷ [] else [])
        ++ (if fresh then [] else (map to_slash claude_config ++ codes ":/ccbox/.claude") ∷ []))

unfoldable pub path_map_arg : List Bytes → List Bytes
path_map_arg [] = []
path_map_arg (m ∷ ms) = env_arg (codes "CCBOX_PATH_MAP") (join (m ∷ ms))

unfoldable pub add_path_mapping : Bytes → Bytes → Bytes → Bytes → Bool → List Bytes
unfolding path_map_arg
add_path_mapping docker_project host_project original claude_config fresh =
    path_map_arg (path_mappings docker_project host_project original claude_config fresh)

unfoldable pub add_dir_mapping : Bytes → Bytes → Bytes → List Bytes
add_dir_mapping docker_project host_project abs_project =
    let container_encoded = encode_path_for_session host_project in
    let native_encoded = encode_path_for_session abs_project in
    if not (equal docker_project host_project) && not (equal container_encoded native_encoded)
    then env_arg (codes "CCBOX_DIR_MAP") (container_encoded ++ b':' ∷ native_encoded)
    else []

-- The loop over the user's variables.
unfoldable pub user_env : List Bytes → List Bytes
user_env [] = []
user_env (e ∷ es) = elim (parse_env_var e) [
  | none ↦ user_env es
  | some (key, value) ↦ env_arg key value ++ user_env es
]

-- What the code names before it appends the arguments.
pub record Resolved : Type 0 where
  pub abs_project : Bytes
  pub docker_project : Bytes
  pub claude_config : Bytes
  pub docker_claude : Bytes
  pub host_project : Bytes
  pub container_name : Bytes
  pub image_name : Bytes

or_dot : Option Bytes → Bytes
or_dot none = codes "."
or_dot (some home) = home

unfoldable pub get_claude_config_dir : Host → Bytes
unfolding or_dot
get_claude_config_dir h = h.filepath_join (or_dot h.home_dir) (codes ".claude")

unfoldable pub is_headless : RunOptions → Bool
is_headless opts = opts.headless || leb 2 opts.debug

-- `usesPrivileged`
unfoldable pub uses_privileged : Host → RunOptions → Bool
uses_privileged h opts = needs_privileged_for_fuse h && needs_fuse h && not opts.fresh

unfoldable pub worktree_args : Host → Bytes → Bytes → List Bytes
worktree_args h abs_project git_path = elim (h.lstat_is_dir git_path) [
  | none ↦ []
  | some is_dir ↦ if is_dir then [] else add_worktree_mount h abs_project git_path
]

unfoldable pub project_args : Host → LanguageStack → Bytes → RunOptions → Resolved → List Bytes
unfolding worktree_args
project_args h stack project_name opts r =
    codes "run"
    ∷ codes "--rm"
    ∷ (if is_headless opts then codes "-i" else codes "-it")
    ∷ codes "--name"
    ∷ r.container_name
    ∷ codes "--label"
    ∷ codes "ccbox=true"
    ∷ codes "--label"
    ∷ (codes "ccbox.stack=" ++ name stack)
    ∷ codes "--label"
    ∷ (codes "ccbox.project=" ++ project_name)
    ∷ (volume_arg r.docker_project r.host_project
        ++ worktree_args h r.abs_project (h.filepath_join r.abs_project (codes ".git")))

-- FUSE's device, or the privileged mode.
unfoldable pub fuse_args : Host → List Bytes
fuse_args h =
    if needs_fuse h
    then (if needs_privileged_for_fuse h
        then codes "--privileged" ∷ []
        else codes "--device" ∷ codes "/dev/fuse" ∷ [])
    else []

unfoldable pub claude_mounts : Host → RunOptions → Resolved → List Bytes
claude_mounts h opts r =
    if opts.fresh
    then add_minimal_mounts h r.claude_config
    else volume_arg r.docker_claude (codes "/ccbox/.claude")
      ++ (fuse_args h ++ add_claude_json_mount h r.claude_config)

unfoldable pub security_args : Host → RunOptions → List Bytes
security_args h opts =
    (if uses_privileged h opts then [] else add_capability_restrictions h opts.network_policy)
    ++ (if opts.read_only && not (uses_privileged h opts) then add_read_only_root h else [])

unfoldable pub system_args : Host → RunOptions → Resolved → List Bytes
system_args h opts r =
    codes "-w"
    ∷ r.host_project
    ∷ (add_user_mapping h
        ++ (add_container_essentials h
            ++ (security_args h opts
                ++ (add_tmpfs_mounts h
                    ++ (add_log_options
                        ++ (add_dns_options
                            ++ ((if equal h.goos (codes "linux") && not (needs_fuse h)
                                  then codes "--add-host=host.docker.internal:host-gateway" ∷ []
                                  else [])
                                ++ add_resource_limits h opts)))))))

unfoldable pub persistent_paths : RunOptions → Resolved → Bytes
persistent_paths opts r =
    if opts.fresh then r.host_project else r.host_project ++ codes ", /ccbox/.claude"

unfoldable pub environment_args : Host → RunOptions → Resolved → List Bytes
environment_args h opts r =
    codes "-e"
    ∷ codes "HOME=/ccbox"
    ∷ codes "-e"
    ∷ codes "CLAUDE_CONFIG_DIR=/ccbox/.claude"
    ∷ (add_terminal_env h
        ++ ((if equal r.docker_project r.host_project
              then []
              else env_arg (codes "CCBOX_WIN_ORIGINAL_PATH") r.docker_project)
            ++ ((if opts.ephemeral_logs
                  then codes "--tmpfs" ∷ codes "/ccbox/.claude/debug:rw,size=512m,mode=0777" ∷ []
                  else [])
                ++ (env_arg (codes "CCBOX_PERSISTENT_PATHS") (persistent_paths opts r)
                    ++ (add_path_mapping r.docker_project r.host_project r.abs_project
                          r.claude_config opts.fresh
                        ++ (add_dir_mapping r.docker_project r.host_project r.abs_project
                            ++ (add_git_env h
                                ++ (add_ssh_agent h
                                    ++ (add_claude_env h ++ user_env opts.env_vars)))))))))

-- The secrets, in the order in which they are collected.
unfoldable pub secrets : Host → List Bytes
secrets h = git_secrets h ++ auth_secrets h auth_vars

unfoldable pub claude_options : RunOptions → Resolved → ClaudeArgsOptions
claude_options opts r = record {
  debug = opts.debug;
  headless = opts.headless;
  persistent_paths = persistent_paths opts r;
  claude_args = opts.claude_args;
}

-- The options of the run, before the environment file.
unfoldable pub option_args : Host → LanguageStack → Bytes → RunOptions → Resolved → List Bytes
option_args h stack project_name opts r =
    project_args h stack project_name opts r
    ++ (claude_mounts h opts r ++ (system_args h opts r ++ environment_args h opts r))

-- `--env-file` where there is one; `none` is the error.
unfoldable pub env_file_args : EnvFile → Option (List Bytes)
env_file_args failed = none
env_file_args no_file = some []
env_file_args (written path lines) = some (codes "--env-file" ∷ path ∷ [])

-- `GetDockerEnv`
unfoldable pub get_docker_env : Host → List Bytes
get_docker_env h =
    if equal h.goos (codes "windows")
    then h.environ ++ codes "MSYS_NO_PATHCONV=1" ∷ codes "MSYS2_ARG_CONV_EXCL=*" ∷ []
    else h.environ

unfoldable pub assemble :
    Host → LanguageStack → Bytes → RunOptions → Resolved → Option DockerRunConfig
assemble h stack project_name opts r =
    let env_file = write_secrets_env_file h (secrets h) in
    elim (env_file_args env_file) [
      | none ↦ none
      | some file_args ↦ some record {
        args =
            option_args h stack project_name opts r
            ++ (file_args ++ r.image_name ∷ build_claude_args h.prompt (claude_options opts r));
        env = get_docker_env h;
        interactive = not (is_headless opts);
        container_name = r.container_name;
        image_name = r.image_name;
        env_file = env_file;
        created = created_files h opts.fresh r.claude_config;
      }
    ]

-- The paths, or `none` where one cannot be resolved.
unfoldable pub resolve : Host → LanguageStack → Bytes → Bytes → RunOptions → Option Resolved
resolve h stack project_path project_name opts = elim (h.filepath_abs project_path) [
  | none ↦ none
  | some abs_project ↦ elim (resolve_for_docker abs_project) [
    | inl e ↦ none
    | inr docker_project ↦ elim (resolve_for_docker (get_claude_config_dir h)) [
      | inl e ↦ none
      | inr docker_claude ↦ some record {
        abs_project = abs_project;
        docker_project = docker_project;
        claude_config = get_claude_config_dir h;
        docker_claude = docker_claude;
        host_project = drive_letter_to_container_path docker_project;
        container_name = h.container_name project_name;
        image_name = or_default opts.project_image (get_image_name stack);
      }
    ]
  ]
]

unfoldable pub build_docker_run_config :
    Host → Bytes → Bytes → LanguageStack → RunOptions → Option DockerRunConfig
build_docker_run_config h project_path project_name stack opts =
    elim (resolve h stack project_path project_name opts) [
      | none ↦ none
      | some r ↦ assemble h stack project_name opts r
    ]
