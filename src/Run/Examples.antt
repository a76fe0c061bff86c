-- ===== src/Run/Examples.antt =====
-- The theorems on the run's arguments with a Linux host.
use ccbox.Common.{
  ◌≡◌, refl, ◌↔◌, inl, inr, true, false, some, none, [], ◌∷◌, ◌++◌, leb, if◌then◌else◌, arith,
  Bytes, codes, equal, strip_prefix, Bool-cases,
}
use ccbox.Paths.Defs.{is_letter, drive_letter_to_container_path, to_slash, match_mount}
use ccbox.Fuse.Config.{trim_space, make_mapping, parse_path_map}
use ccbox.Stacks.Defs.{stack_go}
use ccbox.Run.Host.{Host, RunOptions, is_set}
use ccbox.Run.Claude.{
  ClaudeArgsOptions, append_system_prompt, default_paths, build_claude_args, print_args,
  build_claude_args-merge,
}
use ccbox.Run.Env.{parse_env_var, is_key, git_secrets, secret}
use ccbox.Run.Env.Keys.{parse_env_var-is_key}
use ccbox.Run.Mounts.{add_worktree_mount, match_gitdir, index}
use ccbox.Run.Mounts.Worktree.{add_worktree_mount-absolute}
use ccbox.Run.Args.{Resolved, build_docker_run_config, secrets, join, path_mappings, is_wsl_match}
use ccbox.Run.Args.CleanPaths.{IsClean, drive-IsClean}
use ccbox.Run.Args.PathMap.{path_mappings-parse_path_map}
use ccbox.Run.Args.Security.{
  with_secrets, is_auth, Agrees, args_of, is_nil, build_docker_run_config-secrets,
}

-- The only variable is a key.
pub key_env : Bytes → Bytes → Bytes
unfolding equal
key_env key var = if equal var (codes "ANTHROPIC_API_KEY") then key else []

-- Below `/p` the `.git` file names the main repository's `/m/.git`.
abbrev pub host : Host
host = record {
  goos = codes "linux";
  getenv = key_env (codes "k1");
  proc_version = none;
  to_lower = λ s. s;
  stat = λ path. true;
  is_not_exist = λ path. false;
  lstat_is_dir = λ path. some false;
  read_file = λ path. some (codes "gitdir: /m/.git/worktrees/w");
  filepath_abs = λ path. some path;
  filepath_join = λ dir path. dir ++ path;
  filepath_dir = λ path. path;
  filepath_clean = λ path. path;
  home_dir = some (codes "/h");
  uid = 1;
  gid = 1;
  atoi_positive = λ s. none;
  decimal = λ n. codes "1";
  create_temp = some (codes "/tmp/e");
  chmod = λ path. true;
  write_secrets = λ path. true;
  close = λ path. true;
  shuffle = λ xs. xs;
  environ = [];
  credentials = record { name = []; email = []; token = codes "t1" };
  container_name = λ s. codes "ccbox_p";
  timezone = codes "UTC";
  prompt = λ s. s;
}

abbrev pub options : RunOptions
options = record {
  fresh = false;
  ephemeral_logs = false;
  debug = 0;
  headless = false;
  project_image = [];
  unrestricted = false;
  env_vars = [];
  claude_args = [];
  zero_residue = false;
  memory_limit = [];
  cpu_limit = [];
  network_policy = [];
  read_only = false;
}

abbrev resolved : Resolved
resolved = record {
  abs_project = codes "/p";
  docker_project = codes "/p";
  claude_config = codes "/h/.claude";
  docker_claude = codes "/h/.claude";
  host_project = codes "/p";
  container_name = codes "ccbox_p";
  image_name = codes "i";
}

host-Agrees : Agrees host (key_env (codes "k2"))
unfolding is_auth key_env
host-Agrees var e = elim (Bool-cases (equal var (codes "ANTHROPIC_API_KEY"))) [
  | inl p ↦ absurd (ground (arith, (rw (p, is_auth) at e)))
  | inr p ↦ rw (p, key_env) refl
]

build_docker_run_config-secrets_example :
    args_of (build_docker_run_config host (codes "/p") (codes "p") stack_go options)
    ≡ args_of (
        build_docker_run_config
          (with_secrets host (key_env (codes "k2")) (codes "t2"))
          (codes "/p")
          (codes "p")
          stack_go
          options)
unfolding is_nil secrets git_secrets secret is_set
build_docker_run_config-secrets_example =
    build_docker_run_config-secrets host (key_env (codes "k2")) (codes "t2") (codes "/p")
      (codes "p") stack_go options host-Agrees refl

parse_env_var-is_key_example :
    (parse_env_var (codes "A=b=c") ≡ some (codes "A", codes "b=c"))
    ↔ ((codes "A=b=c" ≡ codes "A" ++ b'=' ∷ codes "b=c") × (is_key (codes "A") ≡ true))
parse_env_var-is_key_example = parse_env_var-is_key (codes "A=b=c") (codes "A") (codes "b=c")

abbrev claude_options : ClaudeArgsOptions
claude_options = record {
  debug = 0;
  headless = true;
  persistent_paths = codes "/p";
  claude_args = codes "-p" ∷ append_system_prompt ∷ codes "be brief" ∷ codes "go" ∷ [];
}

build_claude_args-merge_example :
    build_claude_args (λ s. s) claude_options
    ≡ codes "--dangerously-skip-permissions"
      ∷ ((if leb 2 claude_options.debug then codes "--verbose" ∷ [] else [])
          ++ append_system_prompt
            ∷ (default_paths claude_options.persistent_paths ++ (b'\n' ∷ b'\n' ∷ codes "be brief"))
            ∷ (print_args claude_options ++ (codes "-p" ∷ codes "go" ∷ [])))
unfolding equal
build_claude_args-merge_example =
    build_claude_args-merge (λ s. s) claude_options (codes "-p" ∷ []) (codes "be brief")
      (codes "go" ∷ []) (refl, tt) refl

add_worktree_mount-absolute_example : add_worktree_mount host (codes "/p") (codes "/p/.git") ≡ []
unfolding match_gitdir trim_space index strip_prefix to_slash
add_worktree_mount-absolute_example =
    add_worktree_mount-absolute host (codes "/p") (codes "/p/.git")
      (codes "gitdir: /m/.git/worktrees/w") (codes "/m/.git/worktrees/w")
      (codes "/m/.git/worktrees/w") 4 refl refl refl refl (omega arith)

abbrev windows_pair : Bytes × Bytes
windows_pair = (codes "D:/x", codes "/D/x")

windows_pair-IsClean : IsClean windows_pair
unfolding is_letter drive_letter_to_container_path
windows_pair-IsClean = drive-IsClean b'D' b'x' [] refl ((refl, refl), tt) (refl, tt) refl refl

path_mappings-parse_path_map_example :
    parse_path_map
      (join (path_mappings (codes "D:/x") (codes "/D/x") (codes "D:\\x") (codes "C:\\U") true))
    ≡ make_mapping (codes "D:/x") (codes "/D/x") ∷ []
unfolding equal is_wsl_match match_mount strip_prefix
path_mappings-parse_path_map_example =
    path_mappings-parse_path_map (codes "D:/x") (codes "/D/x") (codes "D:\\x") (codes "C:\\U") true
      (windows_pair-IsClean, tt)
