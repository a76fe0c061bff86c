-- ===== src/Run/Args/Lacks/Environment.antt =====
-- The environment does not ask for the privileged mode.
use ccbox.Common.{
  or_false_left, or_false_right, ◌≡◌, refl, Bool, false, not, ◌&&◌, ◌||◌, Option, none, some, List,
  [], ◌∷◌, ◌++◌, Bytes, codes, equal,
}
use ccbox.Run.Host.{Host, RunOptions, is_set, get_terminal_size, or_default}
use ccbox.Run.Env.{
  env_arg, add_git_env, add_ssh_agent, passthrough_vars, pass_through, add_terminal_env, each_env,
  claude_vars, add_claude_env, parse_env_var, win_ssh_pipe, encode_path_for_session,
}
use ccbox.Run.Args.{
  Resolved, path_map_arg, add_path_mapping, add_dir_mapping, user_env, environment_args, join,
  path_mappings, persistent_paths,
}
use ccbox.Run.Args.Lacks.{
  has_arg, privileged, Lacks, both, nothing, keep, either, literal, equal-colon, env_arg-Lacks,
  env_if_set-Lacks,
}

pass_through-Lacks : (h : Host) (vars : List Bytes) → Lacks (pass_through h vars)
unfolding pass_through
pass_through-Lacks h [] = nothing
pass_through-Lacks h (v ∷ vars) = both (env_if_set-Lacks v (h.getenv v)) (pass_through-Lacks h vars)

add_terminal_env-Lacks : (h : Host) → Lacks (add_terminal_env h)
unfolding add_terminal_env
add_terminal_env-Lacks h =
    let (columns, lines) = get_terminal_size h in
    both
      (env_arg-Lacks (codes "TERM") (or_default (h.getenv (codes "TERM")) (codes "xterm-256color")))
      (both
        (env_arg-Lacks (codes "COLORTERM")
          (or_default (h.getenv (codes "COLORTERM")) (codes "truecolor")))
        (both (env_arg-Lacks (codes "COLUMNS") (h.decimal columns)) (
          both (env_arg-Lacks (codes "LINES") (h.decimal lines))
            (pass_through-Lacks h passthrough_vars))))

pipe_mount : Lacks (codes "-v" ∷ (win_ssh_pipe ++ codes ":/run/ssh-agent.sock:ro") ∷ [])
unfolding has_arg equal
pipe_mount = literal refl

socket_mount : (sock : Bytes) → Lacks (codes "-v" ∷ (sock ++ b':' ∷ (sock ++ codes ":ro")) ∷ [])
unfolding equal
socket_mount sock = keep refl (keep (equal-colon sock (sock ++ codes ":ro")) nothing)

add_ssh_agent-Lacks : (h : Host) → Lacks (add_ssh_agent h)
unfolding add_ssh_agent
add_ssh_agent-Lacks h =
    let sock = h.getenv (codes "SSH_AUTH_SOCK") in
    either (not (is_set sock) && equal h.goos (codes "windows") && h.stat win_ssh_pipe)
      (both pipe_mount (env_arg-Lacks (codes "SSH_AUTH_SOCK") (codes "/run/ssh-agent.sock")))
      (either (not (is_set sock) || not (h.stat sock)) nothing
        (both (socket_mount sock) (env_arg-Lacks (codes "SSH_AUTH_SOCK") sock)))

each_env-Lacks : (es : List Bytes) → has_arg privileged es ≡ false → Lacks (each_env es)
unfolding each_env has_arg equal
each_env-Lacks [] h = nothing
each_env-Lacks (e ∷ es) h =
    keep refl (keep (or_false_left _ _ h) (each_env-Lacks es (or_false_right _ _ h)))

add_claude_env-Lacks : (h : Host) → Lacks (add_claude_env h)
unfolding add_claude_env has_arg equal
add_claude_env-Lacks h =
    both (env_arg-Lacks (codes "TZ") h.timezone) (each_env-Lacks claude_vars refl)

add_git_env-Lacks : (h : Host) → Lacks (add_git_env h)
unfolding add_git_env
add_git_env-Lacks h = both (env_if_set-Lacks (codes "GIT_AUTHOR_NAME") h.credentials.name) (
    both (env_if_set-Lacks (codes "GIT_COMMITTER_NAME") h.credentials.name) (
      both (env_if_set-Lacks (codes "GIT_AUTHOR_EMAIL") h.credentials.email)
        (env_if_set-Lacks (codes "GIT_COMMITTER_EMAIL") h.credentials.email)))

user_variable :
    (o : Option (Bytes × Bytes)) {rest : List Bytes}
    → Lacks rest
    → Lacks (elim o [ none ↦ rest | some (key, value) ↦ env_arg key value ++ rest ])
user_variable none h = h
user_variable (some (key, value)) h = both (env_arg-Lacks key value) h

user_env-Lacks : (es : List Bytes) → Lacks (user_env es)
unfolding user_env
user_env-Lacks [] = nothing
user_env-Lacks (e ∷ es) = user_variable (parse_env_var e) (user_env-Lacks es)

path_map_arg-Lacks : (ms : List Bytes) → Lacks (path_map_arg ms)
unfolding path_map_arg
path_map_arg-Lacks [] = nothing
path_map_arg-Lacks (m ∷ ms) = env_arg-Lacks (codes "CCBOX_PATH_MAP") (join (m ∷ ms))

add_path_mapping-Lacks :
    (docker host original claude : Bytes) (fresh : Bool)
    → Lacks (add_path_mapping docker host original claude fresh)
unfolding add_path_mapping
add_path_mapping-Lacks docker host original claude fresh =
    path_map_arg-Lacks (path_mappings docker host original claude fresh)

add_dir_mapping-Lacks : (docker host project : Bytes) → Lacks (add_dir_mapping docker host project)
unfolding add_dir_mapping
add_dir_mapping-Lacks docker host project =
    let container_encoded = encode_path_for_session host in
    let native_encoded = encode_path_for_session project in
    either (not (equal docker host) && not (equal container_encoded native_encoded))
      (env_arg-Lacks (codes "CCBOX_DIR_MAP") (container_encoded ++ b':' ∷ native_encoded)) nothing

debug_tmpfs : Lacks (codes "--tmpfs" ∷ codes "/ccbox/.claude/debug:rw,size=512m,mode=0777" ∷ [])
unfolding has_arg equal
debug_tmpfs = literal refl

pub environment_args-Lacks :
    (h : Host) (opts : RunOptions) (r : Resolved) → Lacks (environment_args h opts r)
unfolding environment_args has_arg equal
environment_args-Lacks h opts r =
    let mappings =
      both
        (add_path_mapping-Lacks r.docker_project r.host_project r.abs_project r.claude_config
          opts.fresh)
        (both (add_dir_mapping-Lacks r.docker_project r.host_project r.abs_project) (
          both (add_git_env-Lacks h) (
            both (add_ssh_agent-Lacks h)
              (both (add_claude_env-Lacks h) (user_env-Lacks opts.env_vars))))) in
    keep refl (
      keep refl (
        keep refl (
          keep refl (
            both (add_terminal_env-Lacks h) (
              both
                (either (equal r.docker_project r.host_project) nothing
                  (env_arg-Lacks (codes "CCBOX_WIN_ORIGINAL_PATH") r.docker_project))
                (both (either opts.ephemeral_logs debug_tmpfs nothing) (
                  both (env_arg-Lacks (codes "CCBOX_PERSISTENT_PATHS") (persistent_paths opts r))
                    mappings)))))))
