-- ===== src/Cli/Laws.antt =====
-- Which of the files, the flags and the arguments a run is given.
use ccbox.Common.{
  or_false_left, or_false_right, ◌≡◌, ◌≢◌, refl, ap, ◌∙◌, inl, inr, Bool, true, false, not, ◌&&◌,
  Option, none, some, List, [], ◌∷◌, ◌++◌, All, append_assoc, Bytes, codes, equal, equal_iff,
  if◌then◌else◌, arith, Bool-cases, Option-cases,
}
use ccbox.Fuse.Config.{cut}
use ccbox.Run.Env.{is_key, parse_env_var}
use ccbox.Cli.Config.{
  CcboxConfig, empty_config, drop_key, set_env, merge_env, merge_into, merge_from, merge_configs,
  ConfigFiles, load_project_config, load_global_config, load_config, config_env_to_array,
}
use ccbox.Cli.Flags.{
  behind_dashes, collect_claude_args, validate_env_var, validate_all, contains_name, Action,
  cannot_change_directory, invalid_env_var, executes, bridges, Invocation, run_attach_mode,
  run_bridge_mode, use_bridge_mode, change_directory, run_in, run_default,
}

unfoldable pub get_env : Bytes → List (Bytes × Bytes) → Option Bytes
unfolding equal
get_env k [] = none
get_env k ((k1, v) ∷ env) = let rest = get_env k env in if equal k1 k then some v else rest

unfoldable pub or_else : Option Bytes → Option Bytes → Option Bytes
or_else none later = later
or_else (some v) later = some v

unfoldable pub env_of : Option CcboxConfig → List (Bytes × Bytes)
env_of none = []
env_of (some cfg) = cfg.env

get_env-drop_key :
    (k k1 : Bytes) (env : List (Bytes × Bytes))
    → equal k1 k ≡ false
    → get_env k (drop_key k1 env) ≡ get_env k env
unfolding get_env drop_key
get_env-drop_key k k1 [] n = refl
get_env-drop_key k k1 ((k2, v) ∷ env) n = elim (Bool-cases (equal k2 k1)) [
  | inl e ↦ rw (e, ap (λ x. equal x k) ((equal_iff k2 k1).0 e) ∙ n) (get_env-drop_key k k1 env n)
  | inr e ↦ rw (e, get_env-drop_key k k1 env n) refl
]

get_env-merge_env :
    (k : Bytes) (env more : List (Bytes × Bytes))
    → get_env k (merge_env env more) ≡ or_else (get_env k more) (get_env k env)
unfolding get_env merge_env set_env or_else
get_env-merge_env k env [] = refl
get_env-merge_env k env ((k1, v) ∷ more) = elim (Bool-cases (equal k1 k)) [
  | inl e ↦ rw e refl
  | inr n ↦ rw n (get_env-drop_key k k1 (merge_env env more) n ∙ get_env-merge_env k env more)
]

get_env-merge_into :
    (k : Bytes) (result : CcboxConfig) (cfg : Option CcboxConfig)
    → get_env k (merge_into result cfg).env
      ≡ or_else (get_env k (env_of cfg)) (get_env k result.env)
unfolding merge_into env_of get_env or_else
get_env-merge_into k result none = refl
get_env-merge_into k result (some cfg) = get_env-merge_env k result.env cfg.env

or_else-none : (o : Option Bytes) → or_else o none ≡ o
unfolding or_else
or_else-none none = refl
or_else-none (some v) = refl

-- A variable of the loaded configuration is the project's one, or the global one where the project sets
-- none.
pub load_config-get_env :
    (f : ConfigFiles) (path k : Bytes)
    → get_env k (load_config f path).env
      ≡ or_else
          (get_env k (env_of (load_project_config f path)))
          (get_env k (env_of (load_global_config f)))
unfolding load_config merge_configs merge_from get_env
load_config-get_env f path k =
    get_env-merge_into k _ (load_project_config f path)
    ∙ ap (or_else (get_env k (env_of (load_project_config f path))))
        (get_env-merge_into k empty_config (load_global_config f) ∙ or_else-none _)

behind_dashes-append :
    (before after : List Bytes) (a : Bytes)
    → contains_name (codes "--") before ≡ false
    → behind_dashes (before ++ codes "--" ∷ a ∷ after) ≡ a ∷ after
unfolding behind_dashes contains_name equal
behind_dashes-append [] after a n = refl
behind_dashes-append (x ∷ []) after a n =
    rw (or_false_left (equal x (codes "--")) (contains_name (codes "--") []) n) refl
behind_dashes-append (x ∷ y ∷ before) after a n =
    rw (or_false_left (equal x (codes "--")) (contains_name (codes "--") (y ∷ before)) n) (
      behind_dashes-append (y ∷ before) after a
        (or_false_right (equal x (codes "--")) (contains_name (codes "--") (y ∷ before)) n))

-- Where pflag hands on what is behind the first "--" with the other arguments, and this is not nothing,
-- Claude is given it twice.
pub collect_claude_args-twice :
    (os_before before after : List Bytes) (a : Bytes)
    → contains_name (codes "--") os_before ≡ false
    → collect_claude_args (os_before ++ codes "--" ∷ a ∷ after) (before ++ a ∷ after)
      ≡ before ++ ((a ∷ after) ++ (a ∷ after))
unfolding collect_claude_args
collect_claude_args-twice os_before before after a n =
    ap (λ r. (before ++ a ∷ after) ++ r) (behind_dashes-append os_before after a n)
    ∙ append_assoc before (a ∷ after) (a ∷ after)

-- Each variable of the command line is in the options, behind others, and one that the run reads.
unfoldable pub PassesEnv : List Bytes → Action → Type 0
PassesEnv cli (executes opts) =
    (before : List Bytes) × (opts.run_options.env_vars ≡ before ++ cli)
    × All (λ e. parse_env_var e ≢ none) cli
PassesEnv cli (bridges path args) = Unit
PassesEnv cli cannot_change_directory = Unit
PassesEnv cli invalid_env_var = Unit

validate_env_var-parse_env_var : (e : Bytes) → validate_env_var e ≡ true → parse_env_var e ≢ none
unfolding validate_env_var parse_env_var
validate_env_var-parse_env_var e h p = elim (Option-cases (cut b'=' e)) [
  | inl n ↦ ground (arith, (rw (n, validate_env_var) at h))
  | inr ((key, value), s) ↦ elim (Bool-cases (is_key key)) [
    | inl k ↦ ground (arith, (rw (s, k, parse_env_var) at p))
    | inr k ↦ ground (arith, (rw (s, k, validate_env_var) at h))
  ]
]

and_left : (a b : Bool) → (a && b) ≡ true → a ≡ true
and_left true b e = refl
and_left false b e = e

and_right : (a b : Bool) → (a && b) ≡ true → b ≡ true
and_right true b e = e
and_right false b e = absurd (ground (arith, e))

validate_all-All :
    (cli : List Bytes) → validate_all cli ≡ true → All (λ e. parse_env_var e ≢ none) cli
unfolding validate_all
validate_all-All [] h = tt
validate_all-All (e ∷ cli) h =
    (validate_env_var-parse_env_var e (and_left _ _ h), validate_all-All cli (and_right _ _ h))

true_of_not : (b : Bool) → not b ≡ false → b ≡ true
true_of_not true e = refl
true_of_not false e = absurd (ground (arith, e))

if_of {ℓ κ} :
    {A : Type ℓ} (P : A → Type κ) (b : Bool) {x y : A}
    → (b ≡ true → P x)
    → (b ≡ false → P y)
    → P (if b then x else y)
if_of P true h k = h refl
if_of P false h k = k refl

module _ (i : Invocation) where
  abbrev cli_env : List Bytes
  cli_env = i.flags.get_string_array (codes "env")

  run_attach_mode-PassesEnv :
      (cfg : CcboxConfig) (args : List Bytes) (path : Bytes)
      → All (λ e. parse_env_var e ≢ none) cli_env
      → PassesEnv cli_env (run_attach_mode i cfg args path)
  unfolding run_attach_mode PassesEnv
  run_attach_mode-PassesEnv cfg args path h = (config_env_to_array i.env_order cfg, refl, h)

  run_bridge_mode-PassesEnv :
      (cfg : CcboxConfig) (args : List Bytes) (path : Bytes)
      → All (λ e. parse_env_var e ≢ none) cli_env
      → PassesEnv cli_env (run_bridge_mode i args path cfg)
  unfolding run_bridge_mode PassesEnv
  run_bridge_mode-PassesEnv cfg args path h =
      if_of (PassesEnv cli_env) i.has_bridge_runner (λ e. tt)
        (λ e. run_attach_mode-PassesEnv cfg args path h)

  run_in-PassesEnv : (files : ConfigFiles) → PassesEnv cli_env (run_in i files)
  unfolding run_in PassesEnv
  run_in-PassesEnv files =
      if_of (PassesEnv cli_env) (not (validate_all cli_env)) (λ e. tt)
        (λ e.
          let path = i.flags.get_string (codes "path") in
          let cfg = load_config files path in
          let args = collect_claude_args i.os_args i.args in
          let valid = validate_all-All cli_env (true_of_not _ e) in
          if_of (PassesEnv cli_env) (use_bridge_mode i.flags)
            (λ u. run_bridge_mode-PassesEnv cfg args path valid)
            (λ u. run_attach_mode-PassesEnv cfg args path valid))

  -- Where a command goes on to `Execute`, the options hold every variable of the command line, behind
  -- those of the configuration, and each of them is one that the run reads.
  pub run_default-PassesEnv : PassesEnv cli_env (run_default i)
  unfolding run_default PassesEnv
  run_default-PassesEnv =
      elim (change_directory i)
        as (λ o.
          PassesEnv cli_env
            (elim o [ none ↦ cannot_change_directory | some files ↦ run_in i files ])) [
              | none ↦ tt
              | some files ↦ run_in-PassesEnv files
            ]
