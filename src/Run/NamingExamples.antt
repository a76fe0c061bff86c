-- ===== src/Run/NamingExamples.antt =====
-- The theorem on a container's name at a project with a space in its name.
use ccbox.Common.{◌≤◌, refl, some, arith, codes, length}
use ccbox.Run.Naming.{is_safe, get_container_name}
use ccbox.Run.Naming.Bounds.{AllSafe, get_container_name-AllSafe}

get_container_name-AllSafe_example :
    AllSafe (get_container_name (λ s. s) (codes "my app!") (some (codes "0a1b2c")))
    × (8 ≤ length (get_container_name (λ s. s) (codes "my app!") (some (codes "0a1b2c"))))
    × (length (get_container_name (λ s. s) (codes "my app!") (some (codes "0a1b2c"))) ≤ 63)
unfolding is_safe
get_container_name-AllSafe_example =
    get_container_name-AllSafe (λ s. s) (codes "my app!") (codes "0a1b2c")
      (refl, (refl, (refl, (refl, (refl, (refl, tt)))))) (omega arith)
