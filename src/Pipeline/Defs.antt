-- ===== src/Pipeline/Defs.antt =====
-- `Execute` over the daemon's state. The host, the project's files, the start of the docker program and
-- the removal of a file are parameters; log lines are left out.
use ccbox.Common.{
  ℕ, Bool, true, false, not, ◌&&◌, ◌||◌, Option, none, some, List, [], ◌==◌, if◌then◌else◌, Bytes,
  codes, equal,
}
use ccbox.Stacks.Defs.{LanguageStack, parse_stack}
use ccbox.Images.Defs.{Daemon, ImageOptions, ImagesError, ensure_images}
use ccbox.Detect.Patterns.{Patterns}
use ccbox.Detect.Defs.{LanguageDetection, Directory}
use ccbox.Detect.Project.{detect_project_type}
use ccbox.Run.Host.{Host, RunOptions, is_set}
use ccbox.Run.Env.{EnvFile, failed, no_file, written}
use ccbox.Run.Args.{DockerRunConfig, build_docker_run_config}

-- `os.Lstat` of the project: it is not there, it cannot be looked at, or what it is.
pub data LstatReply : Type 0 where
  not_there : LstatReply
  no_access : LstatReply
  entry : Bool → Bool → LstatReply

-- How the docker program ended: it did not start, waiting failed, or it has an exit code; a signal
-- counts as -1, which `os.Exit` turns to 255.
pub data ContainerEnd : Type 0 where
  not_started : ContainerEnd
  not_waited : ContainerEnd
  exited : ℕ → ContainerEnd
  signaled : ContainerEnd

pub record Machine : Type 1 where
  pub daemon : Daemon
  pub host : Host
  pub directory : Bytes → Directory
  pub patterns : List Patterns
  pub sort : List LanguageDetection → List LanguageDetection
  pub lstat : Bytes → LstatReply
  pub filepath_base : Bytes → Bytes
  pub ensure_running : daemon.World → daemon.World × Bool
  pub run_docker : daemon.World → DockerRunConfig → daemon.World × ContainerEnd
  pub remove : daemon.World → Bytes → daemon.World

-- Options that `Execute` never reads are left out, and those on output and on the cache of a build.
pub record ExecuteOptions : Type 0 where
  pub stack_name : Bytes
  pub build_only : Bool
  pub project_path : Bytes
  pub images : ImageOptions
  pub run_options : RunOptions

pub data PathError : Type 0 where
  cannot_resolve does_not_exist cannot_access is_symlink not_a_directory : PathError

pub data ExecuteError : Type 0 where
  docker_not_running : ExecuteError
  invalid_path : PathError → ExecuteError
  invalid_stack : ExecuteError
  images_failed : ImagesError → ExecuteError
  config_failed : ExecuteError
  start_failed : ExecuteError
  wait_failed : ExecuteError

-- `Execute` returned nil, it returned an error, or `os.Exit` ended the program.
pub data Ended : Type 0 where
  returned : Ended
  failed_with : ExecuteError → Ended
  exits : ℕ → Ended

pub data Checked {ℓ} (A : Type ℓ) : Type ℓ where
  fine : A → Checked A
  wrong : ExecuteError → Checked A

pub record Project : Type 0 where
  pub project_path : Bytes
  pub project_name : Bytes
  pub stack : LanguageStack

unfoldable pub check_entry : Bytes → LstatReply → Checked Bytes
check_entry path not_there = wrong (invalid_path does_not_exist)
check_entry path no_access = wrong (invalid_path cannot_access)
check_entry path (entry is_link is_dir) =
    if is_link
    then wrong (invalid_path is_symlink)
    else if is_dir
    then fine path
    else wrong (invalid_path not_a_directory)

-- The exit codes that end the run without a word: success, Ctrl+C and SIGTERM.
unfoldable pub is_normal : ℕ → Bool
is_normal code = code == 0 || code == 130 || code == 143

module _ (m : Machine) where
  abbrev pub World : Type 0
  World = m.daemon.World

  unfoldable pub validate_project_path : Bytes → Checked Bytes
  unfolding check_entry
  validate_project_path path = elim (m.host.filepath_abs path) [
    | none ↦ wrong (invalid_path cannot_resolve)
    | some abs ↦ check_entry abs (m.lstat abs)
  ]

  unfoldable pub detect_from_project : Bytes → LanguageStack
  detect_from_project path =
      (detect_project_type m.sort (m.directory path) m.patterns).recommended_stack

  -- `stackName != "" && stackName != "auto"`
  unfoldable pub resolve_stack : Bytes → Bytes → Checked LanguageStack
  resolve_stack path stack_name =
      if is_set stack_name && not (equal stack_name (codes "auto"))
      then elim (parse_stack m.host.to_lower stack_name) [
        | none ↦ wrong invalid_stack
        | some stack ↦ fine stack
      ]
      else fine (detect_from_project path)

  unfoldable pub project_of : Bytes → Checked LanguageStack → Checked Project
  project_of path (wrong e) = wrong e
  project_of path (fine stack) =
      fine (record { project_path = path; project_name = m.filepath_base path; stack = stack })

  unfoldable pub project_at : Bytes → Checked Bytes → Checked Project
  unfolding project_of
  project_at stack_name (wrong e) = wrong e
  project_at stack_name (fine path) = project_of path (resolve_stack path stack_name)

  unfoldable pub detect_and_report_stack : Bytes → Bytes → Checked Project
  unfolding project_at
  detect_and_report_stack path stack_name = project_at stack_name (validate_project_path path)

  unfoldable pub remove_file : EnvFile → World → World
  remove_file (written path lines) w = m.remove w path
  remove_file no_file w = w
  remove_file failed w = w

  -- `defer os.Remove(runConfig.EnvFile)`, where there is a file.
  unfoldable pub remove_env_file : DockerRunConfig → World → World
  unfolding remove_file
  remove_env_file config w = remove_file config.env_file w

  -- The end of `executeContainer`: a return runs what was deferred, `os.Exit` does not.
  unfoldable pub finish_container : DockerRunConfig → World × ContainerEnd → World × Ended
  unfolding remove_env_file
  finish_container config (w, not_started) = (remove_env_file config w, failed_with start_failed)
  finish_container config (w, not_waited) = (remove_env_file config w, failed_with wait_failed)
  finish_container config (w, exited code) =
      if is_normal code then (remove_env_file config w, returned) else (w, exits code)
  finish_container config (w, signaled) = (w, exits 255)

  unfoldable pub execute_container : DockerRunConfig → World → World × Ended
  unfolding finish_container
  execute_container config w = finish_container config (m.run_docker w config)

  unfoldable pub run_config : Option DockerRunConfig → World → World × Ended
  unfolding execute_container
  run_config none w = (w, failed_with config_failed)
  run_config (some config) w = execute_container config w

  -- The phases from the run's options on, which name no project image.
  unfoldable pub run_project : ExecuteOptions → Project → World → World × Ended
  unfolding run_config
  run_project opts p w =
      run_config
        (build_docker_run_config m.host p.project_path p.project_name p.stack
          (record opts.run_options { project_image = [] }))
        w

  unfoldable pub after_images :
      ExecuteOptions → Project → World × Option ImagesError → World × Ended
  unfolding run_project
  after_images opts p (w, some e) = (w, failed_with (images_failed e))
  after_images opts p (w, none) = if opts.build_only then (w, returned) else run_project opts p w

  unfoldable pub after_detection : ExecuteOptions → Checked Project → World → World × Ended
  unfolding after_images
  after_detection opts (wrong e) w = (w, failed_with e)
  after_detection opts (fine p) w =
      after_images opts p (ensure_images m.daemon opts.images w p.stack)

  unfoldable pub after_check : ExecuteOptions → World × Bool → World × Ended
  unfolding after_detection
  after_check opts (w, false) = (w, failed_with docker_not_running)
  after_check opts (w, true) =
      after_detection opts (detect_and_report_stack opts.project_path opts.stack_name) w

  unfoldable pub execute : ExecuteOptions → World → World × Ended
  unfolding after_check
  execute opts w = after_check opts (m.ensure_running w)
