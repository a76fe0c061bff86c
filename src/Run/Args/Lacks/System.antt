-- ===== src/Run/Args/Lacks/System.antt =====
-- The arguments on the project, the limits and the network do not ask for the privileged mode.
use ccbox.Common.{
  ◌≡◌, refl, Bool, true, false, not, ◌&&◌, [], ◌∷◌, ltb, if◌then◌else◌, Bytes, codes, equal,
}
use ccbox.Stacks.Defs.{LanguageStack}
use ccbox.Run.Host.{Host, RunOptions, needs_fuse, get_host_user_ids}
use ccbox.Run.Env.{
  add_user_mapping, add_container_essentials, is_restricted, add_capability_restrictions,
  add_tmpfs_mounts, add_log_options, add_dns_options,
}
use ccbox.Run.Args.{
  Resolved, debug_args, limit_args, network_args, add_resource_limits, project_args, security_args,
  system_args, is_headless, uses_privileged,
}
use ccbox.Run.Args.Lacks.{
  has_arg, privileged, Lacks, both, nothing, keep, either, literal, env_arg-Lacks, volume_arg-Lacks,
}
use ccbox.Run.Args.Lacks.Mounts.{worktree_args-Lacks, add_read_only_root-Lacks}

interactive : (b : Bool) → equal privileged (if b then codes "-i" else codes "-it") ≡ false
unfolding equal
interactive true = refl
interactive false = refl

pub project_args-Lacks :
    (h : Host) (stack : LanguageStack) (project_name : Bytes) (opts : RunOptions) (r : Resolved)
    → equal privileged r.container_name ≡ false
    → Lacks (project_args h stack project_name opts r)
unfolding project_args equal
project_args-Lacks h stack project_name opts r e =
    let mounts =
      both (volume_arg-Lacks r.docker_project r.host_project)
        (worktree_args-Lacks h r.abs_project (h.filepath_join r.abs_project (codes ".git"))) in
    let labels = keep refl (keep refl (keep refl (keep refl (keep refl (keep refl mounts))))) in
    keep refl (keep refl (keep (interactive (is_headless opts)) (keep refl (keep e labels))))

add_user_mapping-Lacks : (h : Host) → Lacks (add_user_mapping h)
unfolding add_user_mapping
add_user_mapping-Lacks h =
    let (uid, gid) = get_host_user_ids h in
    both (env_arg-Lacks (codes "CCBOX_UID") (h.decimal uid))
      (env_arg-Lacks (codes "CCBOX_GID") (h.decimal gid))

add_container_essentials-Lacks : (h : Host) → Lacks (add_container_essentials h)
unfolding add_container_essentials equal
add_container_essentials-Lacks h =
    keep refl (keep refl (keep refl (keep refl (keep refl (keep refl nothing)))))

add_capability_restrictions-Lacks :
    (h : Host) (policy : Bytes) → Lacks (add_capability_restrictions h policy)
unfolding add_capability_restrictions has_arg equal
add_capability_restrictions-Lacks h policy = keep refl (
    keep refl (
      keep refl (
        keep refl (
          both (either (needs_fuse h) (literal refl) nothing)
            (both (either (is_restricted policy) (literal refl) nothing) (literal refl))))))

security_args-Lacks : (h : Host) (opts : RunOptions) → Lacks (security_args h opts)
unfolding security_args
security_args-Lacks h opts =
    both
      (either (uses_privileged h opts) nothing
        (add_capability_restrictions-Lacks h opts.network_policy))
      (either (opts.read_only && not (uses_privileged h opts)) (add_read_only_root-Lacks h) nothing)

add_tmpfs_mounts-Lacks : (h : Host) → Lacks (add_tmpfs_mounts h)
unfolding add_tmpfs_mounts has_arg equal
add_tmpfs_mounts-Lacks h = literal refl

network_bridge : Lacks (codes "--network=bridge" ∷ [])
unfolding has_arg equal
network_bridge = literal refl

add_resource_limits-Lacks : (h : Host) (opts : RunOptions) → Lacks (add_resource_limits h opts)
unfolding add_resource_limits debug_args limit_args network_args has_arg equal
add_resource_limits-Lacks h opts =
    let isolated = either (equal opts.network_policy (codes "isolated")) network_bridge nothing in
    both
      (either (ltb 0 opts.debug) (env_arg-Lacks (codes "CCBOX_DEBUG") (h.decimal opts.debug))
        nothing)
      (both
        (either opts.unrestricted (env_arg-Lacks (codes "CCBOX_UNRESTRICTED") (codes "1"))
          (literal refl))
        (both
          (either opts.zero_residue (env_arg-Lacks (codes "CCBOX_ZERO_RESIDUE") (codes "1"))
            nothing)
          (either (is_restricted opts.network_policy)
            (both (env_arg-Lacks (codes "CCBOX_NETWORK_POLICY") opts.network_policy) isolated)
            nothing)))

host_gateway : Lacks (codes "--add-host=host.docker.internal:host-gateway" ∷ [])
unfolding has_arg equal
host_gateway = literal refl

log_options : Lacks add_log_options
unfolding has_arg equal
log_options = literal refl

dns_options : Lacks add_dns_options
unfolding has_arg equal
dns_options = literal refl

pub system_args-Lacks :
    (h : Host) (opts : RunOptions) (r : Resolved)
    → equal privileged r.host_project ≡ false
    → Lacks (system_args h opts r)
unfolding system_args has_arg equal
system_args-Lacks h opts r e =
    let rest = both (add_tmpfs_mounts-Lacks h) (
      both log_options (
        both dns_options (
          both (either (equal h.goos (codes "linux") && not (needs_fuse h)) host_gateway nothing)
            (add_resource_limits-Lacks h opts)))) in
    keep refl (
      keep e (
        both (add_user_mapping-Lacks h)
          (both (add_container_essentials-Lacks h) (both (security_args-Lacks h opts) rest))))
