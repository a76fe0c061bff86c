-- ===== src/Fuse/Scan.antt =====
-- The loop that the rewriters of internal/fuse share: at each position either a rewrite applies,
-- which writes its replacement and jumps behind what it replaced, or one byte is copied.
pub mod Laws
use ccbox.Common.{
  ℕ, zero, suc, Bool, true, false, ◌||◌, Option, none, some, List, [], ◌∷◌, ◌++◌, Bytes, Outcome,
  done, timeout, ◌>>=◌,
}

-- What a rewrite at a position does: the bytes that it writes and those that are left to read.
abbrev pub Hit : Type 0
Hit = Option (Bytes × Bytes)

abbrev pub Matcher : Type 0
Matcher = Bytes → Outcome Hit

-- The bytes written from a position on, and the flag `anyTransform` or `anyChange`.
abbrev pub Written : Type 0
Written = Bytes × Bool

pub emit : Bytes → Bool → Outcome Written → Outcome Written
emit out hit r = do (w, any) ← r; done (out ++ w, hit || any)

-- One round of the loop at the byte `c`, with `go` for the rounds behind it.
pub resume : (Bytes → Outcome Written) → ℕ → Bytes → Hit → Outcome Written
unfolding emit
resume go c s none = emit (c ∷ []) false (go s)
resume go c s (some (out, rest)) = emit out true (go rest)

unfoldable pub scan : ℕ → Matcher → Bytes → Outcome Written
unfolding resume
scan fuel rewrite [] = done ([], false)
scan zero rewrite (c ∷ s) = timeout
scan (suc fuel) rewrite (c ∷ s) = rewrite (c ∷ s) >>= resume (scan fuel rewrite) c s
