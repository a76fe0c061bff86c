-- ===== src/Pipeline/Examples.antt =====
-- The theorems on the whole run with a machine whose state lists its images and files.
use ccbox.Common.{
  ℕ, ◌≡◌, refl, Bool, true, false, not, ◌||◌, none, some, List, [], ◌∷◌, Bytes, codes, equal,
  if◌then◌else◌,
}
use ccbox.Images.Examples.{offline, local, has_image, local-TagsAndBuilds}
use ccbox.Detect.Defs.{Directory}
use ccbox.Run.Env.{written}
use ccbox.Run.Args.{DockerRunConfig}
use ccbox.Run.Examples.{host, options}
use ccbox.Pipeline.Defs.{
  Machine, ContainerEnd, not_started, exited, entry, ExecuteOptions, is_normal, execute_container,
  execute,
}
use ccbox.Pipeline.Ready.{with_docker, execute-run_docker, execute_container-is_normal}

has_file : List Bytes → Bytes → Bool
unfolding equal
has_file [] path = false
has_file (x ∷ xs) path = equal x path || has_file xs path

without : List Bytes → Bytes → List Bytes
unfolding equal
without [] path = []
without (x ∷ xs) path = let rest = without xs path in if equal x path then rest else x ∷ rest

kept_or_not :
    (b : Bool) (x path : Bytes) (rest : List Bytes)
    → equal x path ≡ b
    → has_file rest path ≡ false
    → has_file (if b then rest else x ∷ rest) path ≡ false
unfolding has_file
kept_or_not true x path rest e h = h
kept_or_not false x path rest e h = rw (e, h) refl

without-has_file : (w : List Bytes) (path : Bytes) → has_file (without w path) path ≡ false
unfolding has_file without
without-has_file [] path = refl
without-has_file (x ∷ xs) path =
    kept_or_not (equal x path) x path (without xs path) refl (without-has_file xs path)

-- A container that stops at once with the exit code.
stops_with : ℕ → List Bytes → DockerRunConfig → List Bytes × ContainerEnd
stops_with code w config = (w, exited code)

-- The same where the image is there; without it the program does not start.
needs_image : List Bytes → DockerRunConfig → List Bytes × ContainerEnd
needs_image w config = if has_image w config.image_name then (w, exited 0) else (w, not_started)

abbrev empty_directory : Directory
empty_directory = record {
  exists = true;
  stat = λ name. false;
  read_dir = some [];
  open_read = λ name limit. none;
  package_manager_field = none;
}

-- The project names no language and holds no file.
abbrev machine : Machine
machine = record {
  daemon = local;
  host = host;
  directory = λ path. empty_directory;
  patterns = [];
  sort = λ xs. xs;
  lstat = λ path. entry false true;
  filepath_base = λ path. path;
  ensure_running = λ w. (w, true);
  run_docker = stops_with 1;
  remove = without;
}

abbrev execute_options : ExecuteOptions
execute_options = record {
  stack_name = codes "go";
  build_only = false;
  project_path = codes "/p";
  images = offline;
  run_options = options;
}

abbrev secret_config : DockerRunConfig
secret_config = record {
  args = [];
  env = [];
  interactive = false;
  container_name = codes "ccbox_p";
  image_name = codes "i";
  env_file = written (codes "/tmp/e") [];
  created = codes "/tmp/e" ∷ [];
}

execute-run_docker_example :
    execute (with_docker machine (stops_with 0)) execute_options []
    ≡ execute (with_docker machine needs_image) execute_options []
unfolding stops_with needs_image
execute-run_docker_example =
    execute-run_docker machine (stops_with 0) needs_image execute_options [] local-TagsAndBuilds
      (λ v c e. rw e refl)

execute_container-is_normal_example :
    has_file (execute_container machine secret_config (codes "/tmp/e" ∷ [])).0 (codes "/tmp/e")
    ≡ not (is_normal 1)
unfolding has_file stops_with
execute_container-is_normal_example =
    execute_container-is_normal machine has_file secret_config (codes "/tmp/e") [] 1
      (codes "/tmp/e" ∷ []) refl (λ v. without-has_file v (codes "/tmp/e")) refl refl
