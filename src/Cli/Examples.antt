-- ===== src/Cli/Examples.antt =====
-- The theorems on the command line at concrete files and arguments.
use ccbox.Common.{
  ◌≡◌, refl, some, none, List, [], ◌∷◌, ◌++◌, false, true, Bytes, codes, equal, if◌then◌else◌,
}
use ccbox.Cli.Config.{
  empty_config, ConfigFiles, load_project_config, load_global_config, load_config,
}
use ccbox.Cli.Flags.{Flags, collect_claude_args, contains_name, Invocation, run_default}
use ccbox.Cli.Laws.{
  get_env, or_else, env_of, PassesEnv, load_config-get_env, collect_claude_args-twice,
  run_default-PassesEnv,
}

join_all : List Bytes → Bytes
join_all [] = []
join_all (a ∷ []) = a
join_all (a ∷ b ∷ names) = a ++ b'/' ∷ join_all (b ∷ names)

-- The global file sets A to 1, and the project's file sets it to 2.
abbrev files : ConfigFiles
files = record {
  filepath_join = join_all;
  home_dir = some (codes "/h");
  load_config_file = λ path.
      if equal path (codes "/h/.ccbox/config.yaml")
      then some (record empty_config { env = (codes "A", codes "1") ∷ [] })
      else if equal path (codes "./ccbox.yml")
      then some (record empty_config { env = (codes "A", codes "2") ∷ [] })
      else none;
}

-- `-e B=3`, with the bridge switched off.
abbrev flags : Flags
flags = record {
  get_bool = λ name. equal name (codes "no-bridge");
  get_string = λ name. if equal name (codes "path") then codes "." else [];
  get_string_array = λ name. codes "B=3" ∷ [];
  get_count = λ name. 0;
  changed = λ name. false;
  visited = [];
}

abbrev invocation : Invocation
invocation = record {
  flags = flags;
  args = [];
  os_args = codes "--no-bridge" ∷ codes "-e" ∷ codes "B=3" ∷ [];
  directory = files;
  chdir = λ dir. none;
  registry = codes "ghcr.io/sungur/ccbox";
  env_order = λ env. env;
  has_bridge_runner = true;
}

load_config-get_env_example :
    get_env (codes "A") (load_config files (codes ".")).env
    ≡ or_else
        (get_env (codes "A") (env_of (load_project_config files (codes "."))))
        (get_env (codes "A") (env_of (load_global_config files)))
load_config-get_env_example = load_config-get_env files (codes ".") (codes "A")

run_default-PassesEnv_example : PassesEnv (codes "B=3" ∷ []) (run_default invocation)
run_default-PassesEnv_example = run_default-PassesEnv invocation

-- `ccbox -- -p`
collect_claude_args-twice_example :
    collect_claude_args (codes "--" ∷ codes "-p" ∷ []) (codes "-p" ∷ [])
    ≡ codes "-p" ∷ codes "-p" ∷ []
unfolding contains_name
collect_claude_args-twice_example = collect_claude_args-twice [] [] [] (codes "-p") refl
