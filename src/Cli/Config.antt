-- ===== src/Cli/Config.antt =====
-- The configuration files of internal/config/file.go. Reading a file and its YAML is a parameter; a map
-- is the list of its entries with one for each key.
use ccbox.Common.{
  ℕ, Bool, Option, none, some, List, [], ◌∷◌, ◌++◌, map, Bytes, codes, equal, ltb, if◌then◌else◌,
}
use ccbox.Run.Host.{or_default}

-- A debug level that is not positive is not set.
pub record CcboxConfig : Type 0 where
  pub stack : Bytes
  pub deps : Bytes
  pub zero_residue : Option Bool
  pub network_policy : Bytes
  pub memory : Bytes
  pub cpus : Bytes
  pub progress : Bytes
  pub cache : Option Bool
  pub prune : Option Bool
  pub fresh : Option Bool
  pub headless : Option Bool
  pub unrestricted : Option Bool
  pub read_only : Option Bool
  pub debug : ℕ
  pub env : List (Bytes × Bytes)

abbrev pub empty_config : CcboxConfig
empty_config = record {
  stack = [];
  deps = [];
  zero_residue = none;
  network_policy = [];
  memory = [];
  cpus = [];
  progress = [];
  cache = none;
  prune = none;
  fresh = none;
  headless = none;
  unrestricted = none;
  read_only = none;
  debug = 0;
  env = [];
}

unfoldable pub drop_key : Bytes → List (Bytes × Bytes) → List (Bytes × Bytes)
unfolding equal
drop_key k [] = []
drop_key k ((k1, v1) ∷ env) =
    let rest = drop_key k env in if equal k1 k then rest else (k1, v1) ∷ rest

-- `result.Env[k] = v`.
unfoldable pub set_env : Bytes → Bytes → List (Bytes × Bytes) → List (Bytes × Bytes)
unfolding drop_key
set_env k v env = (k, v) ∷ drop_key k env

-- `for k, v := range cfg.Env { result.Env[k] = v }`, which gives the same map in each order: here the
-- first entry is set last.
unfoldable pub merge_env : List (Bytes × Bytes) → List (Bytes × Bytes) → List (Bytes × Bytes)
unfolding set_env
merge_env env [] = env
merge_env env ((k, v) ∷ more) = set_env k v (merge_env env more)

-- The pointer of the later one, if it has one.
unfoldable pub later_pointer : Option Bool → Option Bool → Option Bool
later_pointer old none = old
later_pointer old (some b) = some b

unfoldable pub later_debug : ℕ → ℕ → ℕ
later_debug old new = if ltb 0 new then new else old

unfoldable pub merge_into : CcboxConfig → Option CcboxConfig → CcboxConfig
unfolding or_default later_pointer later_debug merge_env
merge_into result none = result
merge_into result (some cfg) = record {
  stack = or_default cfg.stack result.stack;
  deps = or_default cfg.deps result.deps;
  zero_residue = later_pointer result.zero_residue cfg.zero_residue;
  network_policy = or_default cfg.network_policy result.network_policy;
  memory = or_default cfg.memory result.memory;
  cpus = or_default cfg.cpus result.cpus;
  progress = or_default cfg.progress result.progress;
  cache = later_pointer result.cache cfg.cache;
  prune = later_pointer result.prune cfg.prune;
  fresh = later_pointer result.fresh cfg.fresh;
  headless = later_pointer result.headless cfg.headless;
  unrestricted = later_pointer result.unrestricted cfg.unrestricted;
  read_only = later_pointer result.read_only cfg.read_only;
  debug = later_debug result.debug cfg.debug;
  env = merge_env result.env cfg.env;
}

-- `for _, cfg := range configs`.
unfoldable pub merge_from : CcboxConfig → List (Option CcboxConfig) → CcboxConfig
unfolding merge_into
merge_from result [] = result
merge_from result (cfg ∷ configs) = merge_from (merge_into result cfg) configs

unfoldable pub merge_configs : List (Option CcboxConfig) → CcboxConfig
unfolding merge_from
merge_configs configs = merge_from empty_config configs

abbrev pub project_config_files : List Bytes
project_config_files = codes "ccbox.yaml" ∷ codes "ccbox.yml" ∷ codes ".ccboxrc" ∷ []

-- `filepath.Join`, the home directory and `loadConfigFile`.
pub record ConfigFiles : Type 0 where
  pub filepath_join : List Bytes → Bytes
  pub home_dir : Option Bytes
  pub load_config_file : Bytes → Option CcboxConfig

module _ (f : ConfigFiles) where
  unfoldable pub first_config : Bytes → List Bytes → Option CcboxConfig
  first_config project_path [] = none
  first_config project_path (name ∷ names) =
      let rest = first_config project_path names in
      elim (f.load_config_file (f.filepath_join (project_path ∷ name ∷ []))) [
        | none ↦ rest
        | some cfg ↦ some cfg
      ]

  unfoldable pub load_project_config : Bytes → Option CcboxConfig
  unfolding first_config
  load_project_config project_path = first_config project_path project_config_files

  unfoldable pub load_global_config : Option CcboxConfig
  load_global_config = elim f.home_dir [
    | none ↦ none
    | some home ↦
        f.load_config_file (f.filepath_join (home ∷ codes ".ccbox" ∷ codes "config.yaml" ∷ []))
  ]

  unfoldable pub load_config : Bytes → CcboxConfig
  unfolding merge_configs load_project_config load_global_config
  load_config project_path =
      merge_configs (load_global_config ∷ load_project_config project_path ∷ [])

-- The map is visited in the order that the parameter gives its entries.
unfoldable pub config_env_to_array :
    (List (Bytes × Bytes) → List (Bytes × Bytes)) → CcboxConfig → List Bytes
config_env_to_array order cfg = map (λ (k, v). k ++ b'=' ∷ v) (order cfg.env)
