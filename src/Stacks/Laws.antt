-- ===== src/Stacks/Laws.antt =====
-- The parser inverts the names, and the parents form a forest.
use ccbox.Common.{
  ◌↔◌, sym, ℕ, zero, suc, ◌≡◌, refl, inl, inr, Option, none, some, List, [], ◌∷◌, arith, Bytes,
  equal, equal_iff, Bool-cases,
}
use ccbox.Stacks.Defs.{
  LanguageStack, stack_base, stack_go, stack_rust, stack_java, stack_jvm, name, all_stacks,
  stack_dependency, find_stack, parse_stack,
}

find_stack_sound :
    (ss : List LanguageStack) (v : Bytes) (s : LanguageStack)
    → find_stack ss v ≡ some s
    → name s ≡ v
unfolding find_stack
find_stack_sound [] v s h = absurd (ground arith)
find_stack_sound (x ∷ ss) v s h = elim (Bool-cases (equal (name x) v)) [
  | inl e ↦ ground (arith, (equal_iff (name x) v).0 e)
  | inr e ↦ find_stack_sound ss v s (ground arith)
]

find_stack-name : (s : LanguageStack) → find_stack all_stacks (name s) ≡ some s
unfolding find_stack
find_stack-name stack_base = refl
find_stack-name _ = refl

-- `ParseStack` returns a stack exactly if the lowered text is its name.
pub parse_stack-name :
    (to_lower : Bytes → Bytes) (v : Bytes) (s : LanguageStack)
    → (parse_stack to_lower v ≡ some s) ↔ (to_lower v ≡ name s)
unfolding parse_stack
parse_stack-name to_lower v s =
    (λ h. sym (find_stack_sound all_stacks (to_lower v) s h), λ h. rw h (find_stack-name s))

-- The parents of a stack, from the stack up to one with none; `none` if the walk is longer than
-- the fuel.
abbrev pub root : ℕ → LanguageStack → Option LanguageStack
root zero s = none
root (suc n) s = elim (stack_dependency s) [ none ↦ some s | some p ↦ root n p ]

abbrev pub IsRoot : LanguageStack → Type 0
IsRoot s = stack_dependency s ≡ none

-- From every stack the walk over the parents ends within two steps, at one of the four stacks that
-- have no parent.
root-IsRoot : (s : LanguageStack) → (r : LanguageStack) × (root 3 s ≡ some r) × IsRoot r
unfolding stack_dependency
root-IsRoot stack_go = (stack_go, refl, refl)
root-IsRoot stack_rust = (stack_rust, refl, refl)
root-IsRoot stack_java = (stack_java, refl, refl)
root-IsRoot stack_jvm = (stack_java, refl, refl)
root-IsRoot _ = (stack_base, refl, refl)
