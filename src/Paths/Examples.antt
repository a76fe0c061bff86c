-- ===== src/Paths/Examples.antt =====
-- The theorems on paths at concrete paths.
use ccbox.Common.{◌≡◌, arith, codes}
use ccbox.Paths.Defs.{collapse}
use ccbox.Paths.Slashes.{squeeze, collapse-squeeze}

collapse-squeeze_example : collapse 6 (codes "a////b") ≡ squeeze (codes "a////b")
collapse-squeeze_example = collapse-squeeze 6 (codes "a////b") (omega arith)
