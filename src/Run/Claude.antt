-- ===== src/Run/Claude.antt =====
-- internal/run/args.go: the arguments of the Claude command line.
use ccbox.Common.{
  ℕ, ◌≡◌, refl, Bool, false, ◌||◌, Option, none, some, List, [], ◌∷◌, ◌++◌, leb, if◌then◌else◌,
  Bytes, codes, equal, All,
}

pub record ClaudeArgsOptions : Type 0 where
  pub debug : ℕ
  pub headless : Bool
  pub persistent_paths : Bytes
  pub claude_args : List Bytes

abbrev pub append_system_prompt : Bytes
append_system_prompt = codes "--append-system-prompt"

-- The user's arguments around the first `--append-system-prompt` that has a value, and the value.
unfoldable pub take_prompt : List Bytes → Option (Bytes × List Bytes)
unfolding equal
take_prompt [] = none
take_prompt (a ∷ []) = none
take_prompt (a ∷ value ∷ rest) =
    if equal a append_system_prompt
    then some (value, rest)
    else elim (take_prompt (value ∷ rest)) [ none ↦ none | some (v, args) ↦ some (v, a ∷ args) ]

pub default_paths : Bytes → Bytes
default_paths [] = codes "/ccbox/project, /ccbox/.claude"
default_paths (c ∷ s) = c ∷ s

unfoldable pub prompt_args : Bytes → List Bytes → List Bytes × List Bytes
unfolding take_prompt
prompt_args container_prompt user_args = elim (take_prompt user_args) [
  | none ↦ (append_system_prompt ∷ container_prompt ∷ [], user_args)
  | some (value, rest) ↦
      (append_system_prompt ∷ (container_prompt ++ (b'\n' ∷ b'\n' ∷ value)) ∷ [], rest)
]

unfoldable pub print_args : ClaudeArgsOptions → List Bytes
print_args opts =
    if opts.headless || leb 2 opts.debug
    then codes "--print" ∷ codes "--output-format" ∷ codes "stream-json" ∷ []
    else []

-- `prompt` is `BuildContainerAwarenessPrompt`.
unfoldable pub build_claude_args : (Bytes → Bytes) → ClaudeArgsOptions → List Bytes
unfolding print_args default_paths
build_claude_args prompt opts =
    let (asp, user_args) =
      prompt_args (prompt (default_paths opts.persistent_paths)) opts.claude_args in
    codes "--dangerously-skip-permissions"
    ∷ ((if leb 2 opts.debug then codes "--verbose" ∷ [] else [])
        ++ (asp ++ (print_args opts ++ user_args)))

-- The user's prompt behind the container's, and the other arguments in their order.
take_prompt-append :
    (xs : List Bytes) (value : Bytes) (ys : List Bytes)
    → All (λ a. equal a append_system_prompt ≡ false) xs
    → take_prompt (xs ++ append_system_prompt ∷ value ∷ ys) ≡ some (value, xs ++ ys)
unfolding take_prompt
take_prompt-append [] value ys h = refl
take_prompt-append (a ∷ []) value ys h = rw h.0 refl
take_prompt-append (a ∷ b ∷ xs) value ys h = rw (h.0, take_prompt-append (b ∷ xs) value ys h.1) refl

prompt_args-append :
    (p : Bytes) (xs : List Bytes) (value : Bytes) (ys : List Bytes)
    → All (λ a. equal a append_system_prompt ≡ false) xs
    → prompt_args p (xs ++ append_system_prompt ∷ value ∷ ys)
      ≡ (append_system_prompt ∷ (p ++ (b'\n' ∷ b'\n' ∷ value)) ∷ [], xs ++ ys)
unfolding prompt_args
prompt_args-append p xs value ys h = rw (take_prompt-append xs value ys h, prompt_args) refl

-- Where no argument in front of it is `--append-system-prompt` itself, a user's prompt, the first such
-- option's value, is put behind the container's in one option, and the user's other arguments are
-- passed on in their order behind it.
pub build_claude_args-merge :
    (prompt : Bytes → Bytes) (opts : ClaudeArgsOptions) (xs : List Bytes) (value : Bytes)
    (ys : List Bytes)
    → All (λ a. equal a append_system_prompt ≡ false) xs
    → opts.claude_args ≡ xs ++ append_system_prompt ∷ value ∷ ys
    → build_claude_args prompt opts
      ≡ codes "--dangerously-skip-permissions"
        ∷ ((if leb 2 opts.debug then codes "--verbose" ∷ [] else [])
            ++ append_system_prompt
              ∷ (prompt (default_paths opts.persistent_paths) ++ (b'\n' ∷ b'\n' ∷ value))
              ∷ (print_args opts ++ (xs ++ ys)))
unfolding build_claude_args
build_claude_args-merge prompt opts xs value ys h e =
    rw (e, prompt_args-append (prompt (default_paths opts.persistent_paths)) xs value ys h) refl
