-- ===== src/Run/Mounts/Worktree.antt =====
-- What becomes of a worktree whose `.git` file names an absolute directory.
use ccbox.Common.{
  ℕ, zero, suc, ◌+◌, ◌≤◌, ◌≡◌, refl, ◌⊎◌, inl, inr, some, [], ◌∷◌, ◌++◌, map, arith, length, Bytes,
  codes, strip_prefix-append,
}
use ccbox.Fuse.Config.{trim_space}
use ccbox.Paths.Defs.{PathError, to_slash, resolve_for_docker}
use ccbox.Run.Host.{Host}
use ccbox.Run.Mounts.{
  index, take_bytes, match_gitdir, mount_git_dir, mount_worktree, add_worktree_mount,
}

take_bytes-append :
    (n : ℕ) (xs ys : Bytes) → length xs ≤ n → (r : Bytes) × (take_bytes n (xs ++ ys) ≡ xs ++ r)
unfolding take_bytes
take_bytes-append n [] ys h = (take_bytes n ys, refl)
take_bytes-append zero (x ∷ xs) ys h = absurd (omega (arith, h))
take_bytes-append (suc n) (x ∷ xs) ys h =
    let (r, e) = take_bytes-append n xs ys (omega (arith, h)) in (r, rw e refl)

resolve_cases :
    (x : PathError ⊎ Bytes) → ((e : PathError) × (x ≡ inl e)) ⊎ ((path : Bytes) × (x ≡ inr path))
resolve_cases (inl e) = inl (e, refl)
resolve_cases (inr path) = inr (path, refl)

mount_git_dir-below : (project r : Bytes) → mount_git_dir project (project ++ r) ≡ []
unfolding mount_git_dir
mount_git_dir-below project r = elim (resolve_cases (resolve_for_docker (project ++ r))) [
  | inl (e, g) ↦ rw (g, mount_git_dir) refl
  | inr (path, g) ↦ rw (g, strip_prefix-append project r, mount_git_dir) refl
]

mount_worktree-below :
    (project rest : Bytes) (i : ℕ)
    → index (codes "/.git/worktrees/") (map to_slash (project ++ rest)) ≡ some i
    → length project ≤ i + 5
    → mount_worktree project (project ++ rest) ≡ []
unfolding mount_worktree
mount_worktree-below project rest i e h =
    let (r, g) = take_bytes-append (i + 5) project rest h in
    rw (e, mount_worktree) (rw g (mount_git_dir-below project r))

-- No mount is made where the project's path, joined with the directory that the `.git` file names, is
-- the project's path with more behind it, as the join of an absolute directory is, and the main
-- repository's `.git` in it ends no earlier than the project's path.
pub add_worktree_mount-absolute :
    (h : Host) (project git_path content gitdir rest : Bytes) (i : ℕ)
    → h.read_file git_path ≡ some content
    → match_gitdir (trim_space content) ≡ some gitdir
    → h.filepath_clean (h.filepath_join project gitdir) ≡ project ++ rest
    → index (codes "/.git/worktrees/") (map to_slash (project ++ rest)) ≡ some i
    → length project ≤ i + 5
    → add_worktree_mount h project git_path ≡ []
unfolding add_worktree_mount
add_worktree_mount-absolute h project git_path content gitdir rest i c m j e n =
    rw (c, m, j, add_worktree_mount) (mount_worktree-below project rest i e n)
