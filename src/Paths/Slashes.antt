-- ===== src/Paths/Slashes.antt =====
-- The normalisation of separators ends, and what it computes.
use ccbox.Common.{
  ℕ, zero, suc, ◌<◌, ◌≤◌, ◌≡◌, refl, sym, ap, ◌∙◌, inl, inr, true, false, [], ◌∷◌, ◌&&◌, arith,
  ◌==◌, length, Bytes, Bool-cases, if◌then◌else◌,
}
use ccbox.Paths.Defs.{replace_slashes, has_double, collapse}

-- The text with every run of slashes made one slash.
unfoldable pub squeeze : Bytes → Bytes
squeeze [] = []
squeeze (a ∷ []) = a ∷ []
squeeze (a ∷ b ∷ s) =
    let rest = squeeze (b ∷ s) in if a == b'/' && b == b'/' then rest else a ∷ rest

-- A squeezed text with a byte in front.
squeeze_onto : ℕ → Bytes → Bytes
squeeze_onto a [] = a ∷ []
squeeze_onto a (b ∷ s) = if a == b'/' && b == b'/' then b ∷ s else a ∷ b ∷ s

squeeze-head : (b : ℕ) (s : Bytes) → (r : Bytes) × (squeeze (b ∷ s) ≡ b ∷ r)
unfolding squeeze
squeeze-head b [] = ([], refl)
squeeze-head b (c ∷ s) = elim (Bool-cases (b == b'/' && c == b'/')) [
  | inl e ↦ let (r, h) = squeeze-head c s in (r, rw (e, h) (ground arith))
  | inr e ↦ (squeeze (c ∷ s), rw e refl)
]

squeeze-squeeze_onto : (a : ℕ) (s : Bytes) → squeeze (a ∷ s) ≡ squeeze_onto a (squeeze s)
unfolding squeeze squeeze_onto
squeeze-squeeze_onto a [] = refl
squeeze-squeeze_onto a (b ∷ s) = let (r, h) = squeeze-head b s in rw h (ground arith)

squeeze-apart :
    (a b : ℕ) (s : Bytes)
    → (a == b'/' && b == b'/') ≡ false
    → squeeze (a ∷ b ∷ s) ≡ a ∷ squeeze (b ∷ s)
unfolding squeeze
squeeze-apart a b s e = rw e refl

both : (a b : ℕ) → (a == b'/' && b == b'/') ≡ true → b'/' ≡ b
both a b e = ground (arith, e)

squeeze-replace_slashes : (s : Bytes) → squeeze (replace_slashes s) ≡ squeeze s
unfolding squeeze replace_slashes
squeeze-replace_slashes [] = refl
squeeze-replace_slashes (a ∷ []) = refl
squeeze-replace_slashes (a ∷ b ∷ s) = elim (Bool-cases (a == b'/' && b == b'/')) [
  | inl e ↦ rw e (
      squeeze-squeeze_onto b'/' (replace_slashes s)
      ∙ ap (squeeze_onto b'/') (squeeze-replace_slashes s)
      ∙ sym (squeeze-squeeze_onto b'/' s)
      ∙ ap (λ c. squeeze (c ∷ s)) (both a b e))
  | inr e ↦ rw e (
      squeeze-squeeze_onto a (replace_slashes (b ∷ s))
      ∙ ap (squeeze_onto a) (squeeze-replace_slashes (b ∷ s))
      ∙ sym (squeeze-squeeze_onto a (b ∷ s))
      ∙ squeeze-apart a b s e)
]

length-replace_slashes : (s : Bytes) → length (replace_slashes s) ≤ length s
unfolding replace_slashes
length-replace_slashes [] = omega arith
length-replace_slashes (a ∷ []) = omega arith
length-replace_slashes (a ∷ b ∷ s) =
    ground (arith, length-replace_slashes s, length-replace_slashes (b ∷ s))

length-replace_slashes_lt :
    (s : Bytes) → has_double s ≡ true → length (replace_slashes s) < length s
unfolding replace_slashes has_double
length-replace_slashes_lt [] h = absurd (ground arith)
length-replace_slashes_lt (a ∷ []) h = absurd (ground arith)
length-replace_slashes_lt (a ∷ b ∷ s) h =
    ground (arith, length-replace_slashes s, length-replace_slashes_lt (b ∷ s))

squeeze-has_double : (s : Bytes) → has_double s ≡ false → squeeze s ≡ s
unfolding squeeze has_double
squeeze-has_double [] h = refl
squeeze-has_double (a ∷ []) h = refl
squeeze-has_double (a ∷ b ∷ s) h = ground (arith, squeeze-has_double (b ∷ s))

-- With at least as much fuel as the text is long, the loop leaves every run of slashes as one slash
-- and all else as it is.
pub collapse-squeeze : (n : ℕ) (s : Bytes) → length s ≤ n → collapse n s ≡ squeeze s
unfolding collapse squeeze
collapse-squeeze zero [] h = refl
collapse-squeeze zero (c ∷ s) h = absurd (omega (arith, h))
collapse-squeeze (suc n) s h = elim (Bool-cases (has_double s)) [
  | inr e ↦ rw e (sym (squeeze-has_double s e))
  | inl e ↦ rw e (
      collapse-squeeze n (replace_slashes s) (omega (arith, h, length-replace_slashes_lt s e))
      ∙ squeeze-replace_slashes s)
]
