-- ===== src/Stacks/Defs.antt =====
-- The tables of internal/config/stacks.go, and the functions over them.
use Prim.Native.String.{String}
use ccbox.Common.{
  ℕ, Bool, true, false, ◌||◌, Option, none, some, List, [], ◌∷◌, map, if◌then◌else◌, Bytes, codes,
  equal, strip_prefix,
}

pub data LanguageStack : Type 0 where
  stack_base stack_python stack_web stack_go stack_rust stack_java stack_cpp : LanguageStack
  stack_dotnet stack_swift stack_dart stack_lua : LanguageStack
  stack_jvm stack_functional stack_scripting stack_systems : LanguageStack
  stack_data stack_ai stack_mobile stack_game stack_fullstack : LanguageStack

unfoldable pub name : LanguageStack → Bytes
name stack_base = codes "base"
name stack_python = codes "python"
name stack_web = codes "web"
name stack_go = codes "go"
name stack_rust = codes "rust"
name stack_java = codes "java"
name stack_cpp = codes "cpp"
name stack_dotnet = codes "dotnet"
name stack_swift = codes "swift"
name stack_dart = codes "dart"
name stack_lua = codes "lua"
name stack_jvm = codes "jvm"
name stack_functional = codes "functional"
name stack_scripting = codes "scripting"
name stack_systems = codes "systems"
name stack_data = codes "data"
name stack_ai = codes "ai"
name stack_mobile = codes "mobile"
name stack_game = codes "game"
name stack_fullstack = codes "fullstack"

abbrev pub core_stacks : List LanguageStack
core_stacks =
    stack_base ∷ stack_python ∷ stack_web ∷ stack_go ∷ stack_rust ∷ stack_java ∷ stack_cpp
    ∷ stack_dotnet ∷ stack_swift ∷ stack_dart ∷ stack_lua ∷ []

abbrev pub combined_stacks : List LanguageStack
combined_stacks = stack_jvm ∷ stack_functional ∷ stack_scripting ∷ stack_systems ∷ []

abbrev pub usecase_stacks : List LanguageStack
usecase_stacks = stack_data ∷ stack_ai ∷ stack_mobile ∷ stack_game ∷ stack_fullstack ∷ []

abbrev pub all_stacks : List LanguageStack
all_stacks =
    stack_base ∷ stack_python ∷ stack_web ∷ stack_go ∷ stack_rust ∷ stack_java ∷ stack_cpp
    ∷ stack_dotnet ∷ stack_swift ∷ stack_dart ∷ stack_lua ∷ stack_jvm ∷ stack_functional
    ∷ stack_scripting ∷ stack_systems ∷ stack_data ∷ stack_ai ∷ stack_mobile ∷ stack_game
    ∷ stack_fullstack ∷ []

pub record StackInfo : Type 0 where
  pub description : Bytes
  pub size_mb : ℕ

abbrev info : String → ℕ → StackInfo
info description size_mb = record { description = codes description; size_mb = size_mb }

unfoldable pub stack_info : LanguageStack → StackInfo
stack_info stack_base = info "Claude Code only (vanilla)" 215
stack_info stack_python = info "Python + uv + ruff + pytest + mypy" 350
stack_info stack_web = info "Node.js + Bun + TypeScript + pnpm + eslint + prettier + vitest" 400
stack_info stack_go = info "Go + golangci-lint" 550
stack_info stack_rust = info "Rust + clippy + rustfmt" 700
stack_info stack_java = info "JDK + Maven" 600
stack_info stack_cpp = info "C++ + CMake + Clang + Conan" 450
stack_info stack_dotnet = info ".NET SDK + C# + F#" 500
stack_info stack_swift = info "Swift" 500
stack_info stack_dart = info "Dart SDK" 300
stack_info stack_lua = info "Lua + LuaRocks" 250
stack_info stack_jvm = info "Java + Scala + Clojure + Kotlin" 900
stack_info stack_functional = info "Haskell + OCaml + Elixir/Erlang" 900
stack_info stack_scripting = info "Ruby + PHP + Perl (web backends)" 450
stack_info stack_systems = info "C++ + Zig + Nim (low-level)" 550
stack_info stack_data = info "Python + R + Julia (data science)" 800
stack_info stack_ai = info "Python + Jupyter + PyTorch + TensorFlow" 2500
stack_info stack_mobile = info "Dart + Flutter SDK + Android tools" 1500
stack_info stack_game = info "C++ + SDL2 + Lua + OpenGL" 600
stack_info stack_fullstack = info "Node.js + Python + PostgreSQL client" 700

-- `StackDependencies`: the parent, and `none` for the empty string.
unfoldable pub stack_dependency : LanguageStack → Option LanguageStack
stack_dependency stack_base = none
stack_dependency stack_go = none
stack_dependency stack_rust = none
stack_dependency stack_java = none
stack_dependency stack_jvm = some stack_java
stack_dependency stack_systems = some stack_cpp
stack_dependency stack_game = some stack_cpp
stack_dependency stack_data = some stack_python
stack_dependency stack_ai = some stack_python
stack_dependency stack_mobile = some stack_dart
stack_dependency stack_fullstack = some stack_web
stack_dependency _ = some stack_base

-- `strings.ToLower` is an argument of what follows: `to_lower` stands for it.
unfoldable pub find_stack : List LanguageStack → Bytes → Option LanguageStack
unfolding equal name
find_stack [] normalized = none
find_stack (s ∷ ss) normalized =
    if equal (name s) normalized then some s else find_stack ss normalized

unfoldable pub parse_stack : (Bytes → Bytes) → Bytes → Option LanguageStack
unfolding find_stack
parse_stack to_lower value = find_stack all_stacks (to_lower value)

-- `strings.Contains`
unfoldable pub contains : Bytes → Bytes → Bool
unfolding strip_prefix
contains [] sub = elim (strip_prefix sub []) [ none ↦ false | some r ↦ true ]
contains (c ∷ s) sub =
    let later = contains s sub in elim (strip_prefix sub (c ∷ s)) [ none ↦ later | some r ↦ true ]

pub category : Bytes → Option (List LanguageStack)
unfolding equal
category key =
    if equal key (codes "core")
    then some core_stacks
    else if equal key (codes "combined")
    then some combined_stacks
    else if equal key (codes "usecase")
    then some usecase_stacks
    else none

-- The test of the search: by name, then by description.
unfoldable pub found_by : (Bytes → Bytes) → Bytes → LanguageStack → Bool
unfolding contains name stack_info
found_by to_lower normalized s =
    contains (name s) normalized || contains (to_lower (stack_info s).description) normalized

pub search_stacks : (Bytes → Bytes) → Bytes → List LanguageStack → List LanguageStack
unfolding found_by
search_stacks to_lower normalized [] = []
search_stacks to_lower normalized (s ∷ ss) =
    let rest = search_stacks to_lower normalized ss in
    if found_by to_lower normalized s then s ∷ rest else rest

unfoldable pub filter_stacks : (Bytes → Bytes) → Bytes → List LanguageStack
unfolding search_stacks category
filter_stacks to_lower filter = elim (category (to_lower filter)) [
  | some stacks ↦ stacks
  | none ↦ search_stacks to_lower (to_lower filter) all_stacks
]

abbrev pub get_stack_values : List Bytes
unfolding name
get_stack_values = map name all_stacks
