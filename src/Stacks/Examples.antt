-- ===== src/Stacks/Examples.antt =====
-- The theorems on the stacks at concrete stacks.
use ccbox.Common.{◌≡◌, ◌↔◌, some, codes}
use ccbox.Stacks.Defs.{stack_go, name, parse_stack}
use ccbox.Stacks.Laws.{parse_stack-name}

parse_stack-name_example :
    (parse_stack (λ v. v) (codes "go") ≡ some stack_go) ↔ (codes "go" ≡ name stack_go)
parse_stack-name_example = parse_stack-name (λ v. v) (codes "go") stack_go
