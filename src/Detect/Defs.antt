-- ===== src/Detect/Defs.antt =====
-- internal/detect/detector.go: the detection. What the project's directory answers and what the JSON
-- library reads are parameters, and so is `sort.Slice`; log lines are left out.
use ccbox.Common.{
  ℕ, suc, Bool, false, not, ◌&&◌, ◌||◌, Option, none, some, List, [], ◌∷◌, leb, ◌==◌, if◌then◌else◌,
  Bytes, codes, equal, strip_prefix,
}
use ccbox.Paths.Defs.{contains_bytes}
use ccbox.Stacks.Defs.{
  LanguageStack, stack_base, stack_python, stack_web, stack_go, stack_rust, stack_java, stack_cpp,
  stack_dotnet, stack_swift, stack_dart, stack_lua, stack_jvm, stack_functional, stack_scripting,
  stack_systems, stack_data,
}
use ccbox.Detect.Patterns.{
  conf_secondary_config, conf_source_extension, conf_source_ext_single, conf_content_rejected,
}

pub record LanguageDetection : Type 0 where
  pub language : Bytes
  pub confidence : ℕ
  pub trigger : Bytes
  pub stack : LanguageStack

pub record DetectionResult : Type 0 where
  pub recommended_stack : LanguageStack
  pub detected_languages : List LanguageDetection

pub record DirEntry : Type 0 where
  pub name : Bytes
  pub is_dir : Bool

-- What the directory answers: whether it is there, `os.Stat` of a name in it, `os.ReadDir`, `os.Open`
-- with a read of a number of bytes, and the field `packageManager` that the JSON library finds in
-- `package.json`.
pub record Directory : Type 0 where
  pub exists : Bool
  pub stat : Bytes → Bool
  pub read_dir : Option (List DirEntry)
  pub open_read : Bytes → ℕ → Option Bytes
  pub package_manager_field : Option Bytes

unfoldable pub read_head : Directory → Bytes → ℕ → Bytes
read_head d path n = elim (d.open_read path n) [ none ↦ [] | some content ↦ content ]

unfoldable pub contains_any : Bytes → List Bytes → Bool
contains_any content [] = false
contains_any content (m ∷ ms) = contains_bytes m content || contains_any content ms

unfoldable pub count_markers : Bytes → List Bytes → ℕ
count_markers content [] = 0
count_markers content (m ∷ ms) =
    let rest = count_markers content ms in if contains_bytes m content then suc rest else rest

-- `contentValidators`, one function for each file that is looked into.
unfoldable pub validate_pyproject : Directory → ℕ → ℕ
unfolding contains_any read_head
validate_pyproject d conf =
    if contains_any (read_head d (codes "pyproject.toml") 2048) (
      codes "[project]"
      ∷ codes "[tool.poetry]"
      ∷ codes "[tool.pdm]"
      ∷ codes "[tool.setuptools]"
      ∷ codes "[tool.hatch]"
      ∷ codes "[tool.flit"
      ∷ codes "[build-system]"
      ∷ [])
    then conf
    else conf_content_rejected

unfoldable pub validate_description : Directory → ℕ → ℕ
unfolding count_markers read_head
validate_description d conf =
    if leb 2 (
      count_markers (read_head d (codes "DESCRIPTION") 2048) (
        codes "Package:"
        ∷ codes "Type:"
        ∷ codes "Imports:"
        ∷ codes "Depends:"
        ∷ codes "License:"
        ∷ []))
    then conf
    else conf_content_rejected

unfoldable pub validate_project_toml : Directory → ℕ → ℕ
unfolding contains_any read_head
validate_project_toml d conf =
    if contains_any (read_head d (codes "Project.toml") 2048)
      (codes "uuid" ∷ codes "[deps]" ∷ codes "[compat]" ∷ codes "julia =" ∷ [])
    then conf
    else conf_content_rejected

unfoldable pub validate_manifest : Directory → ℕ → ℕ
unfolding read_head
validate_manifest d conf =
    if contains_bytes (codes "[packages]") (read_head d (codes "manifest.toml") 2048)
    then conf
    else conf_content_rejected

unfoldable pub validate_makefile : Directory → ℕ → ℕ
unfolding contains_any read_head
validate_makefile d conf =
    if contains_any (read_head d (codes "Makefile") 4096) (
      codes "gcc"
      ∷ codes "g++"
      ∷ codes "clang"
      ∷ codes "clang++"
      ∷ codes "$(CC)"
      ∷ codes "$(CXX)"
      ∷ codes ".cpp"
      ∷ codes ".c "
      ∷ codes ".o "
      ∷ [])
    then conf_secondary_config
    else conf

-- The validator of a language and a pattern, if there is one.
unfoldable pub validate : Directory → Bytes → Bytes → ℕ → ℕ
unfolding equal
validate d lang pattern conf =
    if equal lang (codes "python") && equal pattern (codes "pyproject.toml")
    then validate_pyproject d conf
    else if equal lang (codes "r") && equal pattern (codes "DESCRIPTION")
    then validate_description d conf
    else if equal lang (codes "julia") && equal pattern (codes "Project.toml")
    then validate_project_toml d conf
    else if equal lang (codes "gleam") && equal pattern (codes "manifest.toml")
    then validate_manifest d conf
    else if equal lang (codes "cpp") && equal pattern (codes "Makefile")
    then validate_makefile d conf
    else conf

unfoldable pub ends_with : Bytes → Bytes → Bool
ends_with suffix [] = equal suffix []
ends_with suffix (c ∷ s) = equal suffix (c ∷ s) || ends_with suffix s

unfoldable pub matches_pattern : Bytes → Bytes → Bool
matches_pattern filename pattern = elim (strip_prefix (codes "*.") pattern) [
  | none ↦ equal filename pattern
  | some ext ↦ ends_with (b'.' ∷ ext) filename
]

unfoldable pub file_names : List DirEntry → List Bytes
file_names [] = []
file_names (e ∷ es) = let rest = file_names es in if e.is_dir then rest else e.name ∷ rest

unfoldable pub get_dir_files : Directory → List Bytes
get_dir_files d = elim d.read_dir [ none ↦ [] | some es ↦ file_names es ]

unfoldable pub any_matches : Bytes → List Bytes → Bool
any_matches pattern [] = false
any_matches pattern (f ∷ fs) = matches_pattern f pattern || any_matches pattern fs

unfoldable pub has_matching_file : Directory → Bytes → Bool
has_matching_file d pattern =
    if not (contains_bytes (codes "*") pattern)
    then d.stat pattern
    else any_matches pattern (get_dir_files d)

-- `sourceExtensions[lang]`
unfoldable pub source_extensions : Bytes → Option (List Bytes)
source_extensions lang =
    if equal lang (codes "cpp")
    then some (codes ".cpp" ∷ codes ".hpp" ∷ codes ".cc" ∷ codes ".cxx" ∷ codes ".hxx" ∷ [])
    else if equal lang (codes "lua")
    then some (codes ".lua" ∷ [])
    else if equal lang (codes "nim")
    then some (codes ".nim" ∷ [])
    else if equal lang (codes "perl")
    then some (codes ".pm" ∷ codes ".pl" ∷ [])
    else none

unfoldable pub has_extension : List Bytes → Bytes → Bool
has_extension [] f = false
has_extension (ext ∷ exts) f = ends_with ext f || has_extension exts f

unfoldable pub count_files : List Bytes → List Bytes → ℕ
count_files exts [] = 0
count_files exts (f ∷ fs) =
    let rest = count_files exts fs in if has_extension exts f then suc rest else rest

unfoldable pub scale_count : ℕ → ℕ
scale_count count =
    if count == 0
    then conf_content_rejected
    else if count == 1
    then conf_source_ext_single
    else conf_source_extension

unfoldable pub scale_source_confidence : Directory → Bytes → ℕ → ℕ
unfolding scale_count
scale_source_confidence d lang base = elim (source_extensions lang) [
  | none ↦ base
  | some exts ↦
      if not (base == conf_source_extension)
      then base
      else scale_count (count_files exts (get_dir_files d))
]

-- `strings.SplitN(s, "@", 2)[0]`
unfoldable pub before_at : Bytes → Bytes
before_at [] = []
before_at (c ∷ s) = let rest = before_at s in if c == b'@' then [] else c ∷ rest

unfoldable pub detect_package_manager : Directory → Bytes
detect_package_manager d = elim d.package_manager_field [ none ↦ [] | some field ↦ before_at field ]

unfoldable pub one_of : Bytes → List Bytes → Bool
one_of x [] = false
one_of x (y ∷ ys) = equal x y || one_of x ys

unfoldable pub language_to_stack : Bytes → LanguageStack
language_to_stack lang =
    if one_of lang (codes "scala" ∷ codes "clojure" ∷ codes "kotlin" ∷ [])
    then stack_jvm
    else if equal lang (codes "java")
    then stack_java
    else if equal lang (codes "go")
    then stack_go
    else if equal lang (codes "rust")
    then stack_rust
    else if one_of lang (codes "zig" ∷ codes "nim" ∷ [])
    then stack_systems
    else if equal lang (codes "cpp")
    then stack_cpp
    else if one_of lang (codes "bun" ∷ codes "node" ∷ codes "deno" ∷ codes "typescript" ∷ [])
    then stack_web
    else if equal lang (codes "python")
    then stack_python
    else if equal lang (codes "lua")
    then stack_lua
    else if one_of lang (codes "ruby" ∷ codes "php" ∷ codes "perl" ∷ [])
    then stack_scripting
    else if equal lang (codes "dotnet")
    then stack_dotnet
    else if equal lang (codes "swift")
    then stack_swift
    else if equal lang (codes "dart")
    then stack_dart
    else if one_of lang (codes "elixir" ∷ codes "haskell" ∷ codes "ocaml" ∷ codes "gleam" ∷ [])
    then stack_functional
    else if one_of lang (codes "r" ∷ codes "julia" ∷ [])
    then stack_data
    else stack_base
