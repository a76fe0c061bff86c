-- ===== src/Run/Args/Lacks/Mounts.antt =====
-- The mounts do not ask for the privileged mode, unless FUSE does.
use ccbox.Common.{
  ◌+◌, ◌≡◌, refl, inl, inr, false, ◌&&◌, none, some, List, [], ◌∷◌, ◌++◌, arith, map, Bytes, codes,
  equal, Bool-cases, strip_prefix,
}
use ccbox.Fuse.Config.{trim_space}
use ccbox.Paths.Defs.{to_slash, resolve_for_docker, drive_letter_to_container_path}
use ccbox.Run.Host.{Host, RunOptions, needs_fuse, needs_privileged_for_fuse}
use ccbox.Run.Mounts.{
  index, take_bytes, match_gitdir, volume_arg, mount_git_dir, mount_worktree, add_worktree_mount,
  mount_file, essential_mounts, essential_files, mount_claude_json, add_minimal_mounts,
  add_claude_json_mount, claude_json_home, claude_json_config, tmpfs_args, overlays,
  add_read_only_root,
}
use ccbox.Run.Args.{Resolved, worktree_args, fuse_args, claude_mounts, uses_privileged}
use ccbox.Run.Args.Lacks.{
  Lacks, both, nothing, keep, either, if_some, equal-colon, env_arg-Lacks, volume_arg-Lacks,
}

mount_git_dir-Lacks : (project dir : Bytes) → Lacks (mount_git_dir project dir)
unfolding mount_git_dir
mount_git_dir-Lacks project dir =
    elim (resolve_for_docker dir)
      as (λ r. Lacks (elim r [
        | inl e ↦ []
        | inr g ↦ elim (strip_prefix project dir) [
          | some rest ↦ []
          | none ↦ volume_arg g (drive_letter_to_container_path g)
        ]
      ])) [
        | inl e ↦ nothing
        | inr g ↦
            elim (strip_prefix project dir)
              as (λ o. Lacks (elim o [
                | some rest ↦ []
                | none ↦ volume_arg g (drive_letter_to_container_path g)
              ])) [
                | some rest ↦ nothing
                | none ↦ volume_arg-Lacks g (drive_letter_to_container_path g)
              ]
      ]

mount_worktree-Lacks : (project dir : Bytes) → Lacks (mount_worktree project dir)
unfolding mount_worktree
mount_worktree-Lacks project dir =
    if_some (index (codes "/.git/worktrees/") (map to_slash dir))
      (λ i. mount_git_dir-Lacks project (take_bytes (i + 5) dir))

add_worktree_mount-Lacks :
    (h : Host) (project git : Bytes) → Lacks (add_worktree_mount h project git)
unfolding add_worktree_mount
add_worktree_mount-Lacks h project git = if_some (h.read_file git) (λ content.
    if_some (match_gitdir (trim_space content))
      (λ dir. mount_worktree-Lacks project (h.filepath_clean (h.filepath_join project dir))))

pub worktree_args-Lacks : (h : Host) (project git : Bytes) → Lacks (worktree_args h project git)
unfolding worktree_args
worktree_args-Lacks h project git =
    if_some (h.lstat_is_dir git)
      (λ is_dir. either is_dir nothing (add_worktree_mount-Lacks h project git))

mount_file-Lacks : (file to : Bytes) → Lacks (mount_file file to)
unfolding mount_file
mount_file-Lacks file to =
    elim (resolve_for_docker file)
      as (λ r. Lacks (elim r [ inl e ↦ [] | inr path ↦ volume_arg path to ])) [
        | inl e ↦ nothing
        | inr path ↦ volume_arg-Lacks path to
      ]

essential_mounts-Lacks :
    (h : Host) (dir : Bytes) (fs : List Bytes) → Lacks (essential_mounts h dir fs)
unfolding essential_mounts
essential_mounts-Lacks h dir [] = nothing
essential_mounts-Lacks h dir (f ∷ fs) =
    both
      (either (h.stat (h.filepath_join dir f))
        (mount_file-Lacks (h.filepath_join dir f) (codes "/ccbox/.claude/" ++ f)) nothing)
      (essential_mounts-Lacks h dir fs)

add_claude_json_mount-Lacks : (h : Host) (dir : Bytes) → Lacks (add_claude_json_mount h dir)
unfolding add_claude_json_mount
add_claude_json_mount-Lacks h dir =
    mount_file-Lacks (claude_json_home h dir) (codes "/ccbox/.claude.json")

mount_claude_json-Lacks : (h : Host) (dir : Bytes) → Lacks (mount_claude_json h dir)
unfolding mount_claude_json
mount_claude_json-Lacks h dir =
    both (mount_file-Lacks (claude_json_home h dir) (codes "/ccbox/.claude.json"))
      (mount_file-Lacks (claude_json_config h dir) (codes "/ccbox/.claude/.claude.json"))

add_minimal_mounts-Lacks : (h : Host) (dir : Bytes) → Lacks (add_minimal_mounts h dir)
unfolding add_minimal_mounts equal
add_minimal_mounts-Lacks h dir = keep refl (
    keep refl (
      both (essential_mounts-Lacks h dir essential_files) (
        both (mount_claude_json-Lacks h dir)
          (env_arg-Lacks (codes "CCBOX_MINIMAL_MOUNT") (codes "1")))))

tmpfs_args-Lacks : (xs : List (Bytes × Bytes)) → Lacks (tmpfs_args xs)
unfolding tmpfs_args equal
tmpfs_args-Lacks [] = nothing
tmpfs_args-Lacks ((path, opts) ∷ xs) =
    keep refl (keep (equal-colon path opts) (tmpfs_args-Lacks xs))

pub add_read_only_root-Lacks : (h : Host) → Lacks (add_read_only_root h)
unfolding add_read_only_root equal
add_read_only_root-Lacks h = keep refl (tmpfs_args-Lacks (h.shuffle overlays))

fuse_args-Lacks :
    (h : Host) → (needs_privileged_for_fuse h && needs_fuse h) ≡ false → Lacks (fuse_args h)
unfolding fuse_args equal
fuse_args-Lacks h e = elim (Bool-cases (needs_fuse h)) [
  | inr f ↦ rw f nothing
  | inl f ↦ elim (Bool-cases (needs_privileged_for_fuse h)) [
    | inr g ↦ rw (f, g) (keep refl (keep refl nothing))
    | inl g ↦ absurd (ground (arith, (rw (f, g) at e)))
  ]
]

pub claude_mounts-Lacks :
    (h : Host) (opts : RunOptions) (r : Resolved)
    → uses_privileged h opts ≡ false
    → Lacks (claude_mounts h opts r)
unfolding claude_mounts uses_privileged
claude_mounts-Lacks h opts r u = elim (Bool-cases opts.fresh) [
  | inl e ↦ rw e (add_minimal_mounts-Lacks h r.claude_config)
  | inr e ↦ rw e (
      both (volume_arg-Lacks r.docker_claude (codes "/ccbox/.claude")) (
        both (fuse_args-Lacks h (ground (arith, u, e)))
          (add_claude_json_mount-Lacks h r.claude_config)))
]
