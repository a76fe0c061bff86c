-- ===== src/Run/Args/Lacks.antt =====
-- Lists of arguments in which `--privileged` does not stand.
pub mod Mounts
pub mod System
pub mod Environment
use ccbox.Common.{
  ℕ, ◌+◌, ◌≡◌, refl, inl, inr, Bool, true, false, not, ◌&&◌, ◌||◌, Option, none, some, List, [],
  ◌∷◌, ◌++◌, arith, ◌==◌, ltb, if◌then◌else◌, map, All, Bytes, codes, equal, Bool-cases,
  strip_prefix,
}
use ccbox.Stacks.Defs.{LanguageStack, name}
use ccbox.Fuse.Config.{trim_space}
use ccbox.Paths.Defs.{to_slash, resolve_for_docker, drive_letter_to_container_path}
use ccbox.Run.Host.{
  Host, RunOptions, needs_fuse, needs_privileged_for_fuse, is_set, get_terminal_size,
  get_host_user_ids, or_default,
}
use ccbox.Run.Env.{
  env_arg, env_if_set, add_git_env, add_ssh_agent, passthrough_vars, pass_through, add_terminal_env,
  add_user_mapping, add_container_essentials, is_restricted, add_capability_restrictions,
  add_tmpfs_mounts, each_env, claude_vars, add_claude_env, parse_env_var, win_ssh_pipe,
  add_log_options, add_dns_options, encode_path_for_session,
}
use ccbox.Run.Mounts.{
  index, take_bytes, match_gitdir, volume_arg, mount_git_dir, mount_worktree, add_worktree_mount,
  mount_file, essential_mounts, essential_files, mount_claude_json, add_minimal_mounts,
  add_claude_json_mount, claude_json_home, claude_json_config, tmpfs_args, overlays,
  add_read_only_root,
}
use ccbox.Run.Args.{
  Resolved, debug_args, limit_args, network_args, add_resource_limits, path_map_arg,
  add_path_mapping, add_dir_mapping, user_env, worktree_args, project_args, fuse_args,
  claude_mounts, security_args, system_args, environment_args, option_args, is_headless, join,
  path_mappings, persistent_paths, uses_privileged,
}

-- The argument stands in the list.
unfoldable pub has_arg : Bytes → List Bytes → Bool
unfolding equal
has_arg x [] = false
has_arg x (y ∷ ys) = equal x y || has_arg x ys

abbrev pub privileged : Bytes
privileged = codes "--privileged"

pub record Lacks (xs : List Bytes) : Type 0 where
  pub lacks : has_arg privileged xs ≡ false

has_arg-append :
    (x : Bytes) (xs ys : List Bytes)
    → has_arg x xs ≡ false
    → has_arg x ys ≡ false
    → has_arg x (xs ++ ys) ≡ false
unfolding has_arg
has_arg-append x [] ys h k = k
has_arg-append x (y ∷ xs) ys h k = ground (arith, has_arg-append x xs ys, h, k)

pub both : {xs ys : List Bytes} → Lacks xs → Lacks ys → Lacks (xs ++ ys)
both {xs} {ys} h k = record { lacks = has_arg-append privileged xs ys h.lacks k.lacks }

pub nothing : Lacks []
unfolding has_arg
nothing = record { lacks = refl }

pub literal : {xs : List Bytes} → has_arg privileged xs ≡ false → Lacks xs
literal e = record { lacks = e }

pub keep : {x : Bytes} {xs : List Bytes} → equal privileged x ≡ false → Lacks xs → Lacks (x ∷ xs)
unfolding has_arg
keep e h = record { lacks = rw e h.lacks }

pub either : (b : Bool) {xs ys : List Bytes} → Lacks xs → Lacks ys → Lacks (if b then xs else ys)
either true h k = h
either false h k = k

-- A list that is appended where an answer is there.
pub if_some :
    {A : Type 0} (o : Option A) {f : A → List Bytes}
    → ((a : A) → Lacks (f a))
    → Lacks (elim o [ none ↦ [] | some a ↦ f a ])
if_some none h = nothing
if_some (some a) h = h a

-- A text with a byte that another lacks is not that one.
equal_without :
    (s a b : Bytes) (c : ℕ) → All (λ x. (x == c) ≡ false) s → equal s (a ++ c ∷ b) ≡ false
unfolding equal
equal_without [] [] b c h = refl
equal_without [] (y ∷ a) b c h = refl
equal_without (x ∷ s) [] b c h = rw h.0 refl
equal_without (x ∷ s) (y ∷ a) b c h = ground (arith, equal_without s a b c h.1)

equal-equals : (a b : Bytes) → equal privileged (a ++ b'=' ∷ b) ≡ false
equal-equals a b = equal_without privileged a b b'=' (
  refl,
  (refl, (refl, (refl, (refl, (refl, (refl, (refl, (refl, (refl, (refl, (refl, tt))))))))))),
)

pub equal-colon : (a b : Bytes) → equal privileged (a ++ b':' ∷ b) ≡ false
equal-colon a b = equal_without privileged a b b':' (
  refl,
  (refl, (refl, (refl, (refl, (refl, (refl, (refl, (refl, (refl, (refl, (refl, tt))))))))))),
)

pub env_arg-Lacks : (name value : Bytes) → Lacks (env_arg name value)
unfolding env_arg equal
env_arg-Lacks name value = keep refl (keep (equal-equals name value) nothing)

pub volume_arg-Lacks : (from to : Bytes) → Lacks (volume_arg from to)
unfolding volume_arg equal
volume_arg-Lacks from to = keep refl (keep (equal-colon from (to ++ codes ":rw")) nothing)

pub env_if_set-Lacks : (name value : Bytes) → Lacks (env_if_set name value)
unfolding env_if_set
env_if_set-Lacks name value = either (is_set value) (env_arg-Lacks name value) nothing
