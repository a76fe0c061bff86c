-- ===== src/Cli/Flags.antt =====
-- The flags of internal/cli/run.go. The parsing by pflag is a parameter, `Flags`, with what it answers.
use ccbox.Common.{
  ℕ, zero, suc, Bool, true, false, not, ◌&&◌, ◌||◌, Option, none, some, List, [], ◌∷◌, ◌++◌, Bytes,
  codes, equal, ltb, if◌then◌else◌,
}
use ccbox.Fuse.Config.{cut}
use ccbox.Run.Env.{is_key}
use ccbox.Run.Host.{is_set, or_default}
use ccbox.Pipeline.Defs.{ExecuteOptions}
use ccbox.Cli.Config.{CcboxConfig, ConfigFiles, load_config, config_env_to_array}

-- A flag that was set on the command line, with its value by type.
pub data FlagValue : Type 0 where
  bool_flag : Bool → FlagValue
  count_flag : ℕ → FlagValue
  string_array : List Bytes → FlagValue
  other_flag : Bytes → FlagValue

-- `changed` lists the flags that `Visit` visits, in its order.
pub record Flags : Type 0 where
  pub get_bool : Bytes → Bool
  pub get_string : Bytes → Bytes
  pub get_string_array : Bytes → List Bytes
  pub get_count : Bytes → ℕ
  pub changed : Bytes → Bool
  pub visited : List (Bytes × FlagValue)

unfoldable pub bool_ptr_default : Option Bool → Bool → Bool
bool_ptr_default none fallback = fallback
bool_ptr_default (some b) fallback = b

unfoldable pub max : ℕ → ℕ → ℕ
max a b = if ltb a b then b else a

module _ (f : Flags) where
  unfoldable pub resolve_string_flag : Bytes → Bytes → Bytes
  unfolding or_default
  resolve_string_flag name config_value =
      if f.changed name then f.get_string name else or_default config_value (f.get_string name)

  unfoldable pub resolve_deps_mode : CcboxConfig → Bytes
  unfolding or_default
  resolve_deps_mode file_config =
      if f.get_bool (codes "no-deps")
      then codes "skip"
      else if f.get_bool (codes "deps-prod")
      then codes "prod"
      else or_default file_config.deps (codes "all")

-- The first "--" with something behind it: what is behind it.
unfoldable pub behind_dashes : List Bytes → List Bytes
unfolding equal
behind_dashes [] = []
behind_dashes (a ∷ []) = []
behind_dashes (a ∷ b ∷ os_args) =
    let rest = behind_dashes (b ∷ os_args) in if equal a (codes "--") then b ∷ os_args else rest

-- `os_args` is `os.Args[1:]`.
unfoldable pub collect_claude_args : List Bytes → List Bytes → List Bytes
unfolding behind_dashes
collect_claude_args os_args cobra_args = cobra_args ++ behind_dashes os_args

-- Whether there is no error.
unfoldable pub validate_env_var : Bytes → Bool
unfolding cut is_key is_set
validate_env_var env_var = elim (cut b'=' env_var) [
  | none ↦ false
  | some (key, value) ↦ is_set key && is_key key
]

unfoldable pub validate_all : List Bytes → Bool
unfolding validate_env_var
validate_all [] = true
validate_all (e ∷ env_vars) = validate_env_var e && validate_all env_vars

unfoldable pub contains_name : Bytes → List Bytes → Bool
unfolding equal
contains_name name [] = false
contains_name name (x ∷ xs) = equal x name || contains_name name xs

abbrev pub bridge_exclude_flags : List Bytes
bridge_exclude_flags =
    codes "attach-mode"
    ∷ codes "no-bridge"
    ∷ codes "build"
    ∷ codes "headless"
    ∷ codes "path"
    ∷ codes "chdir"
    ∷ codes "quiet"
    ∷ codes "no-pull"
    ∷ []

unfoldable pub repeated : ℕ → Bytes → List Bytes
repeated zero arg = []
repeated (suc n) arg = arg ∷ repeated n arg

unfoldable pub each_value : Bytes → List Bytes → List Bytes
each_value arg [] = []
each_value arg (v ∷ values) = arg ∷ v ∷ each_value arg values

unfoldable pub flag_args : Bytes → FlagValue → List Bytes
unfolding repeated each_value
flag_args name (bool_flag b) = if b then (codes "--" ++ name) ∷ [] else []
flag_args name (count_flag n) = repeated n (codes "--" ++ name)
flag_args name (string_array values) = each_value (codes "--" ++ name) values
flag_args name (other_flag value) = (codes "--" ++ name ++ b'=' ∷ value) ∷ []

unfoldable pub visit_flags : List (Bytes × FlagValue) → List Bytes
unfolding flag_args contains_name
visit_flags [] = []
visit_flags ((name, value) ∷ flags) =
    let rest = visit_flags flags in
    if contains_name name bridge_exclude_flags then rest else flag_args name value ++ rest

unfoldable pub behind_separator : List Bytes → List Bytes
behind_separator [] = []
behind_separator (a ∷ claude_args) = codes "--" ∷ a ∷ claude_args

unfoldable pub build_ccbox_args_for_bridge : Flags → List Bytes → List Bytes
unfolding visit_flags behind_separator
build_ccbox_args_for_bridge f claude_args = visit_flags f.visited ++ behind_separator claude_args

-- What a run of the root command does: it ends with an error, or it calls `run.Execute` or the bridge.
pub data Action : Type 0 where
  cannot_change_directory : Action
  invalid_env_var : Action
  executes : ExecuteOptions → Action
  bridges : Bytes → List Bytes → Action

-- The command line, the files of each working directory, and whether there is a bridge.
pub record Invocation : Type 0 where
  pub flags : Flags
  pub args : List Bytes
  pub os_args : List Bytes
  pub directory : ConfigFiles
  pub chdir : Bytes → Option ConfigFiles
  pub registry : Bytes
  pub env_order : List (Bytes × Bytes) → List (Bytes × Bytes)
  pub has_bridge_runner : Bool

-- The options of `Execute` that its record has; `max` and the defaults are the code's.
unfoldable pub run_attach_mode : Invocation → CcboxConfig → List Bytes → Bytes → Action
unfolding resolve_string_flag bool_ptr_default max config_env_to_array or_default
run_attach_mode i file_config claude_args project_path =
    let f = i.flags in
    executes (record {
      stack_name = or_default (f.get_string (codes "stack")) file_config.stack;
      build_only = f.get_bool (codes "build");
      project_path = project_path;
      images = record {
        no_pull = f.get_bool (codes "no-pull");
        version = [];
        registry = i.registry;
      };
      run_options = record {
        fresh = f.get_bool (codes "fresh") || bool_ptr_default file_config.fresh false;
        ephemeral_logs = f.get_bool (codes "no-debug-logs");
        debug = max (f.get_count (codes "debug")) file_config.debug;
        headless = f.get_bool (codes "headless") || bool_ptr_default file_config.headless false;
        project_image = [];
        unrestricted =
            f.get_bool (codes "unrestricted") || bool_ptr_default file_config.unrestricted false;
        env_vars = config_env_to_array i.env_order file_config ++ f.get_string_array (codes "env");
        claude_args = claude_args;
        zero_residue =
            f.get_bool (codes "zero-residue") || bool_ptr_default file_config.zero_residue false;
        memory_limit = resolve_string_flag f (codes "memory") file_config.memory;
        cpu_limit = resolve_string_flag f (codes "cpus") file_config.cpus;
        network_policy = resolve_string_flag f (codes "network") file_config.network_policy;
        read_only = f.get_bool (codes "read-only") || bool_ptr_default file_config.read_only false;
      };
    })

unfoldable pub run_bridge_mode : Invocation → List Bytes → Bytes → CcboxConfig → Action
unfolding build_ccbox_args_for_bridge run_attach_mode
run_bridge_mode i claude_args project_path file_config =
    if i.has_bridge_runner
    then bridges project_path (build_ccbox_args_for_bridge i.flags claude_args)
    else run_attach_mode i file_config claude_args project_path

-- `!attachMode && !noBridge && !buildOnly && !headless`
unfoldable pub use_bridge_mode : Flags → Bool
use_bridge_mode f =
    not (f.get_bool (codes "attach-mode"))
    && not (f.get_bool (codes "no-bridge"))
    && not (f.get_bool (codes "build"))
    && not (f.get_bool (codes "headless"))

unfoldable pub change_directory : Invocation → Option ConfigFiles
unfolding is_set
change_directory i =
    let dir = i.flags.get_string (codes "chdir") in
    if is_set dir then i.chdir dir else some i.directory

unfoldable pub run_in : Invocation → ConfigFiles → Action
unfolding validate_all load_config collect_claude_args use_bridge_mode run_bridge_mode
    run_attach_mode
run_in i files =
    let project_path = i.flags.get_string (codes "path") in
    let file_config = load_config files project_path in
    let claude_args = collect_claude_args i.os_args i.args in
    if not (validate_all (i.flags.get_string_array (codes "env")))
    then invalid_env_var
    else if use_bridge_mode i.flags
    then run_bridge_mode i claude_args project_path file_config
    else run_attach_mode i file_config claude_args project_path

unfoldable pub run_default : Invocation → Action
unfolding change_directory run_in
run_default i = elim (change_directory i) [
  | none ↦ cannot_change_directory
  | some files ↦ run_in i files
]
