-- ===== src/Pipeline/Ready.antt =====
-- What holds where the container is started, and what is left behind it.
use ccbox.Common.{
  ℕ, ◌≡◌, ◌⊎◌, refl, ap, sym, ◌∙◌, inl, inr, Bool, true, false, not, Option, none, some, List, [],
  arith, if◌then◌else◌, Bytes, Option-cases,
}
use ccbox.Stacks.Defs.{LanguageStack}
use ccbox.Images.Defs.{ImagesError, get_image_name, ensure_images}
use ccbox.Images.Ensure.{TagsAndBuilds, ensure_images-exists}
use ccbox.Paths.Defs.{resolve_for_docker}
use ccbox.Run.Host.{Host, RunOptions, or_default}
use ccbox.Run.Env.{written, write_secrets_env_file}
use ccbox.Run.Args.{
  DockerRunConfig, Resolved, env_file_args, secrets, assemble, resolve, get_claude_config_dir,
  build_docker_run_config,
}
use ccbox.Pipeline.Defs.{
  Machine, ContainerEnd, not_started, not_waited, exited, signaled, ExecuteOptions, Ended, returned,
  exits, Checked, fine, wrong, Project, is_normal, validate_project_path, detect_from_project,
  resolve_stack, remove_file, detect_and_report_stack, remove_env_file, finish_container,
  execute_container, run_config, run_project, after_images, after_detection, after_check, execute,
}

Sum-cases {ℓ κ} :
    {A : Type ℓ} {B : Type κ} (s : A ⊎ B) → ((a : A) × (s ≡ inl a)) ⊎ ((b : B) × (s ≡ inr b))
Sum-cases (inl a) = inl (a, refl)
Sum-cases (inr b) = inr (b, refl)

module _ (h : Host) (stack : LanguageStack) where
  assemble-image_name :
      (name : Bytes) (opts : RunOptions) (r : Resolved) (config : DockerRunConfig)
      → assemble h stack name opts r ≡ some config
      → config.image_name ≡ r.image_name
  unfolding assemble
  assemble-image_name name opts r config e =
      elim (Option-cases (env_file_args (write_secrets_env_file h (secrets h)))) [
        | inl n ↦ absurd (ground (arith, (rw (n, assemble) at e)))
        | inr (args, s) ↦
            ap (λ o. elim o [ none ↦ r.image_name | some c ↦ c.image_name ])
              (sym (rw (s, assemble) at e))
      ]

  resolve-image_name :
      (path name : Bytes) (opts : RunOptions) (r : Resolved)
      → resolve h stack path name opts ≡ some r
      → r.image_name ≡ or_default opts.project_image (get_image_name stack)
  unfolding resolve
  resolve-image_name path name opts r e = elim (Option-cases (h.filepath_abs path)) [
    | inl n ↦ absurd (ground (arith, (rw (n, resolve) at e)))
    | inr (abs, s) ↦ elim (Sum-cases (resolve_for_docker abs)) [
      | inl (x, n) ↦ absurd (ground (arith, (rw (s, n, resolve) at e)))
      | inr (project, t) ↦ elim (Sum-cases (resolve_for_docker (get_claude_config_dir h))) [
        | inl (x, n) ↦ absurd (ground (arith, (rw (s, t, n, resolve) at e)))
        | inr (claude, u) ↦
            let image = or_default opts.project_image (get_image_name stack) in
            ap (λ o. elim o [ none ↦ image | some x ↦ x.image_name ])
              (sym (rw (s, t, u, resolve) at e))
      ]
    ]
  ]

  -- Without a project image, the configuration names the image of the stack.
  build_docker_run_config-image_name :
      (path name : Bytes) (opts : RunOptions) (config : DockerRunConfig)
      → opts.project_image ≡ []
      → build_docker_run_config h path name stack opts ≡ some config
      → config.image_name ≡ get_image_name stack
  unfolding build_docker_run_config or_default
  build_docker_run_config-image_name path name opts config p e =
      elim (Option-cases (resolve h stack path name opts)) [
        | inl n ↦ absurd (ground (arith, (rw (n, build_docker_run_config) at e)))
        | inr (r, s) ↦
            assemble-image_name name opts r config (rw (s, build_docker_run_config) at e)
            ∙ resolve-image_name path name opts r s
            ∙ ap (λ i. or_default i (get_image_name stack)) p
      ]

if-agree {ℓ} :
    {A : Type ℓ} (b : Bool) {x y u v : A}
    → x ≡ u
    → y ≡ v
    → (if b then x else y) ≡ (if b then u else v)
if-agree true e f = e
if-agree false e f = f

-- The machine with another docker program.
abbrev pub with_docker :
    (m : Machine) → (m.daemon.World → DockerRunConfig → m.daemon.World × ContainerEnd) → Machine
with_docker m r = record m { run_docker = r }

module _ (m : Machine) (r1 r2 : m.daemon.World → DockerRunConfig → m.daemon.World × ContainerEnd)
    (agree : (w : m.daemon.World) (c : DockerRunConfig)
      → m.daemon.exists w c.image_name ≡ true
      → r1 w c ≡ r2 w c) where
  run_config-agree :
      (stack : LanguageStack) (o : Option DockerRunConfig) (w : m.daemon.World)
      → ((c : DockerRunConfig) → o ≡ some c → c.image_name ≡ get_image_name stack)
      → m.daemon.exists w (get_image_name stack) ≡ true
      → run_config (with_docker m r1) o w ≡ run_config (with_docker m r2) o w
  unfolding run_config execute_container
  run_config-agree stack none w h e = refl
  run_config-agree stack (some c) w h e =
      ap (finish_container (with_docker m r1) c) (agree w c (ap (m.daemon.exists w) (h c refl) ∙ e))

  run_project-agree :
      (opts : ExecuteOptions) (p : Project) (w : m.daemon.World)
      → m.daemon.exists w (get_image_name p.stack) ≡ true
      → run_project (with_docker m r1) opts p w ≡ run_project (with_docker m r2) opts p w
  unfolding run_project
  run_project-agree opts p w e =
      run_config-agree p.stack _ w
        (λ c h.
          build_docker_run_config-image_name m.host p.stack p.project_path p.project_name _ c refl
            h)
        e

  after_images-agree :
      (opts : ExecuteOptions) (p : Project) (s : m.daemon.World × Option ImagesError)
      → (s.1 ≡ none → m.daemon.exists s.0 (get_image_name p.stack) ≡ true)
      → after_images (with_docker m r1) opts p s ≡ after_images (with_docker m r2) opts p s
  unfolding after_images
  after_images-agree opts p (w, some e) h = refl
  after_images-agree opts p (w, none) h =
      if-agree opts.build_only refl (run_project-agree opts p w (h refl))

  after_detection-agree :
      TagsAndBuilds m.daemon
      → (opts : ExecuteOptions) (c : Checked Project) (w : m.daemon.World)
      → after_detection (with_docker m r1) opts c w ≡ after_detection (with_docker m r2) opts c w
  unfolding after_detection
  after_detection-agree t opts (wrong e) w = refl
  after_detection-agree t opts (fine p) w =
      after_images-agree opts p (ensure_images m.daemon opts.images w p.stack)
        (ensure_images-exists m.daemon opts.images t w p.stack)

  after_check-agree :
      TagsAndBuilds m.daemon
      → (opts : ExecuteOptions) (s : m.daemon.World × Bool)
      → after_check (with_docker m r1) opts s ≡ after_check (with_docker m r2) opts s
  unfolding after_check detect_and_report_stack resolve_stack validate_project_path
      detect_from_project
  after_check-agree t opts (w, false) = refl
  after_check-agree t opts (w, true) = after_detection-agree t opts _ w

-- Where a successful tag or build leaves an image of its name, a run starts the docker program only
-- where the image that its configuration names exists: two docker programs that behave alike there give
-- the same run.
pub execute-run_docker :
    (m : Machine) (r1 r2 : m.daemon.World → DockerRunConfig → m.daemon.World × ContainerEnd)
    (opts : ExecuteOptions) (w : m.daemon.World)
    → TagsAndBuilds m.daemon
    → ((v : m.daemon.World) (c : DockerRunConfig)
        → m.daemon.exists v c.image_name ≡ true
        → r1 v c ≡ r2 v c)
    → execute (with_docker m r1) opts w ≡ execute (with_docker m r2) opts w
unfolding execute
execute-run_docker m r1 r2 opts w t agree =
    after_check-agree m r1 r2 agree t opts (m.ensure_running w)

code_of : {c d : ℕ} → exited c ≡ exited d → c ≡ d
code_of {c} e = ap (λ x. elim x [ exited n ↦ n | _ ↦ c ]) e

module _ (m : Machine) (has_file : m.daemon.World → Bytes → Bool) (config : DockerRunConfig)
    (path : Bytes) (lines : List Bytes) (code : ℕ)
    (names_file : config.env_file ≡ written path lines)
    (removes : (w : m.daemon.World) → has_file (m.remove w path) path ≡ false) where
  remove_env_file-has_file :
      (w : m.daemon.World) → has_file (remove_env_file m config w) path ≡ false
  unfolding remove_env_file remove_file
  remove_env_file-has_file w = ap (λ f. has_file (remove_file m f w) path) names_file ∙ removes w

  abbrev end_of : Bool → ℕ → m.daemon.World → m.daemon.World × Ended
  end_of b c w = if b then (remove_env_file m config w, returned) else (w, exits c)

  choose_end :
      (b : Bool) (c : ℕ) (w : m.daemon.World)
      → has_file w path ≡ true
      → has_file (end_of b c w).0 path ≡ not b
  choose_end true c w there = remove_env_file-has_file w
  choose_end false c w there = there

  finish_container-has_file :
      (p : m.daemon.World × ContainerEnd)
      → has_file p.0 path ≡ true
      → p.1 ≡ exited code
      → has_file (finish_container m config p).0 path ≡ not (is_normal code)
  unfolding finish_container
  finish_container-has_file (w, not_started) there ended = absurd (ground (arith, ended))
  finish_container-has_file (w, not_waited) there ended = absurd (ground (arith, ended))
  finish_container-has_file (w, signaled) there ended = absurd (ground (arith, ended))
  finish_container-has_file (w, exited c) there ended =
      choose_end (is_normal c) c w there ∙ ap (λ n. not (is_normal n)) (code_of ended)

-- Where the removal of a file removes it and the docker program leaves the file of secrets alone, that
-- file is still there behind a run with an exit code other than 0, 130 and 143, and gone behind those.
pub execute_container-is_normal :
    (m : Machine) (has_file : m.daemon.World → Bytes → Bool) (config : DockerRunConfig)
    (path : Bytes) (lines : List Bytes) (code : ℕ) (w : m.daemon.World)
    → config.env_file ≡ written path lines
    → ((v : m.daemon.World) → has_file (m.remove v path) path ≡ false)
    → has_file (m.run_docker w config).0 path ≡ true
    → (m.run_docker w config).1 ≡ exited code
    → has_file (execute_container m config w).0 path ≡ not (is_normal code)
unfolding execute_container
execute_container-is_normal m has_file config path lines code w e removes there ended =
    finish_container-has_file m has_file config path lines code e removes (m.run_docker w config)
      there ended
