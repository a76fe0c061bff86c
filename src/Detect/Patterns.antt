-- ===== src/Detect/Patterns.antt =====
-- internal/detect/detector.go: the file names that tell each language, with their scores. A Go map has
-- no order of its own: a list of these pairs stands for the order in which a loop visits it.
use Prim.Native.String.{String}
use ccbox.Common.{ℕ, List, [], ◌∷◌, Bytes, codes}

abbrev pub conf_lock_file : ℕ
conf_lock_file = 95

abbrev pub conf_package_manager_field : ℕ
conf_package_manager_field = 95

abbrev pub conf_primary_config : ℕ
conf_primary_config = 90

abbrev pub conf_secondary_config : ℕ
conf_secondary_config = 80

abbrev pub conf_ambiguous_config : ℕ
conf_ambiguous_config = 50

abbrev pub conf_general_tool : ℕ
conf_general_tool = 40

abbrev pub conf_source_extension : ℕ
conf_source_extension = 30

abbrev pub conf_source_ext_single : ℕ
conf_source_ext_single = 15

abbrev pub conf_makefile_demoted : ℕ
conf_makefile_demoted = 20

abbrev pub conf_content_rejected : ℕ
conf_content_rejected = 0

pub record PatternEntry : Type 0 where
  pub pattern : Bytes
  pub confidence : ℕ

-- A key of `languagePatterns` with its value.
pub record Patterns : Type 0 where
  pub language : Bytes
  pub entries : List PatternEntry

abbrev entry : String → ℕ → PatternEntry
entry pattern confidence = record { pattern = codes pattern; confidence = confidence }

abbrev of : String → List PatternEntry → Patterns
of language entries = record { language = codes language; entries = entries }

abbrev python_patterns : Patterns
python_patterns = of "python" (
    entry "poetry.lock" conf_lock_file
    ∷ entry "uv.lock" conf_lock_file
    ∷ entry "pdm.lock" conf_lock_file
    ∷ entry "pyproject.toml" conf_primary_config
    ∷ entry "setup.py" conf_secondary_config
    ∷ entry "requirements.txt" conf_secondary_config
    ∷ entry "Pipfile" conf_secondary_config
    ∷ entry "setup.cfg" conf_secondary_config
    ∷ [])

abbrev node_patterns : Patterns
node_patterns = of "node" (
    entry "package-lock.json" conf_lock_file
    ∷ entry "yarn.lock" conf_lock_file
    ∷ entry "pnpm-lock.yaml" conf_lock_file
    ∷ entry "package.json" conf_primary_config
    ∷ [])

abbrev bun_patterns : Patterns
bun_patterns = of "bun" (
    entry "bun.lockb" conf_lock_file
    ∷ entry "bun.lock" conf_lock_file
    ∷ entry "bunfig.toml" conf_primary_config
    ∷ [])

abbrev deno_patterns : Patterns
deno_patterns = of "deno" (
    entry "deno.lock" conf_lock_file
    ∷ entry "deno.json" conf_primary_config
    ∷ entry "deno.jsonc" conf_primary_config
    ∷ [])

abbrev typescript_patterns : Patterns
typescript_patterns = of "typescript" (
    entry "tsconfig.json" conf_primary_config
    ∷ entry "tsconfig.base.json" conf_secondary_config
    ∷ entry "tsconfig.*.json" conf_secondary_config
    ∷ [])

abbrev go_patterns : Patterns
go_patterns = of "go" (entry "go.sum" conf_lock_file ∷ entry "go.mod" conf_primary_config ∷ [])

abbrev rust_patterns : Patterns
rust_patterns =
    of "rust" (entry "Cargo.lock" conf_lock_file ∷ entry "Cargo.toml" conf_primary_config ∷ [])

abbrev java_patterns : Patterns
java_patterns = of "java" (
    entry "gradle.lock" conf_lock_file
    ∷ entry "pom.xml" conf_primary_config
    ∷ entry "build.gradle" conf_primary_config
    ∷ entry "build.gradle.kts" conf_secondary_config
    ∷ entry "settings.gradle" conf_secondary_config
    ∷ entry "settings.gradle.kts" conf_secondary_config
    ∷ [])

abbrev scala_patterns : Patterns
scala_patterns = of "scala" (
    entry "build.sbt" conf_primary_config
    ∷ entry "project/build.properties" conf_secondary_config
    ∷ [])

abbrev clojure_patterns : Patterns
clojure_patterns =
    of "clojure"
      (entry "project.clj" conf_primary_config ∷ entry "deps.edn" conf_primary_config ∷ [])

abbrev kotlin_patterns : Patterns
kotlin_patterns = of "kotlin" (
    entry "build.gradle.kts" conf_primary_config
    ∷ entry "settings.gradle.kts" conf_secondary_config
    ∷ [])

abbrev ruby_patterns : Patterns
ruby_patterns = of "ruby" (
    entry "Gemfile.lock" conf_lock_file
    ∷ entry "Gemfile" conf_primary_config
    ∷ entry "Rakefile" conf_secondary_config
    ∷ entry ".ruby-version" conf_secondary_config
    ∷ entry "*.gemspec" conf_secondary_config
    ∷ [])

abbrev php_patterns : Patterns
php_patterns = of "php" (
    entry "composer.lock" conf_lock_file
    ∷ entry "composer.json" conf_primary_config
    ∷ entry "artisan" conf_secondary_config
    ∷ [])

abbrev dotnet_patterns : Patterns
dotnet_patterns = of "dotnet" (
    entry "*.sln" conf_primary_config
    ∷ entry "*.csproj" conf_primary_config
    ∷ entry "*.fsproj" conf_primary_config
    ∷ entry "*.vbproj" conf_primary_config
    ∷ entry "global.json" conf_secondary_config
    ∷ entry "nuget.config" conf_secondary_config
    ∷ [])

abbrev elixir_patterns : Patterns
elixir_patterns =
    of "elixir" (entry "mix.lock" conf_lock_file ∷ entry "mix.exs" conf_primary_config ∷ [])

abbrev haskell_patterns : Patterns
haskell_patterns = of "haskell" (
    entry "stack.yaml" conf_primary_config
    ∷ entry "cabal.project" conf_primary_config
    ∷ entry "*.cabal" conf_primary_config
    ∷ entry "package.yaml" conf_secondary_config
    ∷ [])

abbrev swift_patterns : Patterns
swift_patterns = of "swift" (
    entry "Package.swift" conf_primary_config
    ∷ entry "*.xcodeproj" conf_secondary_config
    ∷ entry "*.xcworkspace" conf_secondary_config
    ∷ [])

abbrev dart_patterns : Patterns
dart_patterns =
    of "dart" (entry "pubspec.lock" conf_lock_file ∷ entry "pubspec.yaml" conf_primary_config ∷ [])

abbrev perl_patterns : Patterns
perl_patterns = of "perl" (
    entry "cpanfile" conf_primary_config
    ∷ entry "Makefile.PL" conf_secondary_config
    ∷ entry "Build.PL" conf_secondary_config
    ∷ entry "*.pm" conf_source_extension
    ∷ [])

abbrev lua_patterns : Patterns
lua_patterns = of "lua" (
    entry "*.rockspec" conf_secondary_config
    ∷ entry ".luacheckrc" conf_secondary_config
    ∷ entry "*.lua" conf_source_extension
    ∷ [])

abbrev ocaml_patterns : Patterns
ocaml_patterns = of "ocaml" (
    entry "dune-project" conf_primary_config
    ∷ entry "*.opam" conf_primary_config
    ∷ entry "dune" conf_secondary_config
    ∷ entry "_opam" conf_secondary_config
    ∷ [])

abbrev cpp_patterns : Patterns
cpp_patterns = of "cpp" (
    entry "CMakeLists.txt" conf_primary_config
    ∷ entry "conanfile.txt" conf_primary_config
    ∷ entry "conanfile.py" conf_primary_config
    ∷ entry "vcpkg.json" conf_primary_config
    ∷ entry "Makefile" conf_general_tool
    ∷ entry "*.cpp" conf_source_extension
    ∷ entry "*.hpp" conf_source_extension
    ∷ [])

abbrev r_patterns : Patterns
r_patterns = of "r" (
    entry "renv.lock" conf_lock_file
    ∷ entry "DESCRIPTION" conf_ambiguous_config
    ∷ entry ".Rprofile" conf_secondary_config
    ∷ entry "*.Rproj" conf_primary_config
    ∷ [])

abbrev julia_patterns : Patterns
julia_patterns =
    of "julia"
      (entry "Manifest.toml" conf_lock_file ∷ entry "Project.toml" conf_ambiguous_config ∷ [])

abbrev zig_patterns : Patterns
zig_patterns =
    of "zig"
      (entry "build.zig" conf_primary_config ∷ entry "build.zig.zon" conf_primary_config ∷ [])

abbrev nim_patterns : Patterns
nim_patterns = of "nim" (
    entry "*.nimble" conf_primary_config
    ∷ entry "nim.cfg" conf_secondary_config
    ∷ entry "*.nim" conf_source_extension
    ∷ [])

abbrev gleam_patterns : Patterns
gleam_patterns =
    of "gleam"
      (entry "gleam.toml" conf_primary_config ∷ entry "manifest.toml" conf_ambiguous_config ∷ [])

-- The entries in the order of the source.
abbrev pub language_patterns : List Patterns
language_patterns =
    python_patterns ∷ node_patterns ∷ bun_patterns ∷ deno_patterns ∷ typescript_patterns
    ∷ go_patterns ∷ rust_patterns ∷ java_patterns ∷ scala_patterns ∷ clojure_patterns
    ∷ kotlin_patterns ∷ ruby_patterns ∷ php_patterns ∷ dotnet_patterns ∷ elixir_patterns
    ∷ haskell_patterns ∷ swift_patterns ∷ dart_patterns ∷ perl_patterns ∷ lua_patterns
    ∷ ocaml_patterns ∷ cpp_patterns ∷ r_patterns ∷ julia_patterns ∷ zig_patterns ∷ nim_patterns
    ∷ gleam_patterns ∷ []
