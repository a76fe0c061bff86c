-- ===== src/Common/ByteStrings.antt =====
-- Byte strings. A Go `string` or `[]byte` is the list of its bytes; a position in a buffer that the
-- code walks from left to right is the list of the bytes from there on.
use Prim.Native.Char.{code}
use Prim.Native.Nat.{ℕ, ◌+◌, ◌≤◌}
use Prim.Native.String.{String}
use mathlib.Core.Bool.{Bool, true, false, ◌&&◌}
use mathlib.Core.List.{List, [], ◌∷◌, ◌++◌}
use mathlib.Core.Logic.{◌↔◌}
use mathlib.Core.Option.{Option, none, some}
use mathlib.Core.Path.{◌≡◌, refl, ap}
use native.Mathlib.Omega.{arith}
use ccbox.Common.Lists.{All, length, length-append}
use ccbox.Common.Tests.{◌==◌, if◌then◌else◌}

abbrev pub Bytes : Type 0
Bytes = List ℕ

-- The bytes of an ASCII literal.
abbrev pub codes : String → Bytes
codes String.[] = []
codes (String.◌∷◌ c s) = code c ∷ codes s

-- `string(a) == string(b)`, `bytes.Equal(a, b)`
unfoldable pub equal : Bytes → Bytes → Bool
equal (c ∷ s) (d ∷ t) = c == d && equal s t
equal [] [] = true
equal _ _ = false

pub equal_iff : (s t : Bytes) → (equal s t ≡ true) ↔ (s ≡ t)
unfolding equal
equal_iff [] [] = ground arith
equal_iff [] (d ∷ t) = ground arith
equal_iff (c ∷ s) [] = ground arith
equal_iff (c ∷ s) (d ∷ t) = ground (equal_iff s t, arith)

-- `strings.HasPrefix(s, p)` with `s[len(p):]`, or `i+len(p) <= len(s) && s[i:i+len(p)] == p` with
-- the position `i+len(p)`: what follows the prefix, if it is one.
unfoldable pub strip_prefix : Bytes → Bytes → Option Bytes
strip_prefix [] s = some s
strip_prefix (x ∷ p) [] = none
strip_prefix (x ∷ p) (y ∷ s) = if x == y then strip_prefix p s else none

pub strip_prefix-append : (p s : Bytes) → strip_prefix p (p ++ s) ≡ some s
unfolding strip_prefix
strip_prefix-append [] s = refl
strip_prefix-append (x ∷ p) s = ground (arith, strip_prefix-append p s)

pub append_of_strip_prefix : (p s r : Bytes) → strip_prefix p s ≡ some r → s ≡ p ++ r
unfolding strip_prefix
append_of_strip_prefix [] s r h = ground arith
append_of_strip_prefix (x ∷ p) [] r h = cc
append_of_strip_prefix (x ∷ p) (y ∷ s) r h = ground (arith, append_of_strip_prefix p s r)

pub length-strip_prefix :
    (p s r : Bytes) → strip_prefix p s ≡ some r → length s ≡ length p + length r
length-strip_prefix p s r h =
    omega (arith, ap length (append_of_strip_prefix p s r h), length-append p r)

-- The byte at a position, and 0 at the end of the buffer: `next := byte(0); if i < len(buf) {...}`.
abbrev pub next_byte : Bytes → ℕ
next_byte [] = 0
next_byte (c ∷ s) = c

-- `for i < len(s) && keep(s[i])`: the bytes passed over, and those from the stop on.
unfoldable pub span : (ℕ → Bool) → Bytes → Bytes × Bytes
span keep [] = ([], [])
span keep (c ∷ s) =
    let (taken, rest) = span keep s in if keep c then (c ∷ taken, rest) else ([], c ∷ s)

pub length-span : (keep : ℕ → Bool) (s : Bytes) → length (span keep s).1 ≤ length s
unfolding span
length-span keep [] = omega arith
length-span keep (c ∷ s) = ground (arith, length-span keep s)

-- The bytes up to the first that is not kept.
pub span-append :
    (keep : ℕ → Bool) (xs : Bytes) (c : ℕ) (s : Bytes)
    → All (λ x. keep x ≡ true) xs
    → keep c ≡ false
    → span keep (xs ++ c ∷ s) ≡ (xs, c ∷ s)
unfolding span
span-append keep [] c s h k = rw k
span-append keep (x ∷ xs) c s h k = rw (span-append keep xs c s h.1 k, h.0)
