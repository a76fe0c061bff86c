-- ===== src/Fuse/Transform/Paths.antt =====
-- How the rewriters read a path, byte for byte.
use ccbox.Common.{
  ℕ, ◌≡◌, refl, inl, inr, Bool, true, false, none, some, List, [], ◌∷◌, ◌++◌, arith, All, All-map,
  Bytes, strip_prefix-append, next_byte, span, span-append, done, ◌==◌, Bool-cases,
}
use ccbox.Fuse.Config.{PathMapping, to_lower_byte, is_alpha}
use ccbox.Fuse.Transform.{
  push, ends_to, at_segment, slice_from, replace_path, or_else, match_drive, extract_json_path,
  container_hit, in_path, escape_seps, drive_hit, unc_hit, wsl_hit, wsl_here,
}

-- A byte of a path: no delimiter, no white space of Latin-1, no backslash.
abbrev pub IsPathByte : ℕ → Type 0
IsPathByte c = (in_path c ≡ true) × ((c == b'\\') ≡ false)

-- What follows the mapped part of a path.
abbrev pub IsTail : Bytes → Type 0
IsTail [] = Unit
IsTail (c ∷ s) = ((c == b'/') ≡ true) × All IsPathByte s

pub escape_seps-append :
    (b : Bool) (xs ys : Bytes) → escape_seps b (xs ++ ys) ≡ escape_seps b xs ++ escape_seps b ys
unfolding escape_seps
escape_seps-append b [] ys = refl
escape_seps-append b (c ∷ xs) ys = ground (arith, escape_seps-append b xs ys)

extract_json_path-cons :
    (c : ℕ) (s : Bytes) → IsPathByte c → extract_json_path (c ∷ s) ≡ push c (extract_json_path s)
unfolding extract_json_path in_path
extract_json_path-cons c [] h = ground arith
extract_json_path-cons c (d ∷ s) h = ground arith

extract_json_path_slash :
    (s : Bytes) → extract_json_path (b'\\' ∷ b'\\' ∷ s) ≡ push b'/' (extract_json_path s)
unfolding extract_json_path
extract_json_path_slash s = refl

extract_json_path-quote : (s : Bytes) → extract_json_path (b'"' ∷ s) ≡ ([], b'"' ∷ s)
unfolding extract_json_path
extract_json_path-quote [] = refl
extract_json_path-quote (c ∷ s) = refl

pub extract_json_path-escape_seps :
    (xs after : Bytes)
    → All IsPathByte xs
    → extract_json_path (escape_seps true xs ++ b'"' ∷ after) ≡ (xs, b'"' ∷ after)
unfolding escape_seps
extract_json_path-escape_seps [] after h = extract_json_path-quote after
extract_json_path-escape_seps (c ∷ xs) after h = elim (Bool-cases (c == b'/')) [
  | inl e ↦
      rw (e, extract_json_path_slash, extract_json_path-escape_seps xs after h.1)
        (unfold push in ground arith)
  | inr e ↦
      rw (e, extract_json_path-cons c (escape_seps true xs ++ b'"' ∷ after) h.0)
        (rw (extract_json_path-escape_seps xs after h.1) (unfold push in refl))
]

pub IsTail-path : (tail : Bytes) → IsTail tail → All IsPathByte tail
unfolding in_path
IsTail-path [] h = tt
IsTail-path (c ∷ s) h = (ground arith, h.1)

in_path-true : (xs : Bytes) → All IsPathByte xs → All (λ c. in_path c ≡ true) xs
in_path-true xs h = All-map IsPathByte (λ c. in_path c ≡ true) xs (λ c k. k.0) h

pub span-tail :
    (tail after : Bytes) → IsTail tail → span in_path (tail ++ b'"' ∷ after) ≡ (tail, b'"' ∷ after)
span-tail tail after h =
    span-append in_path tail b'"' after (in_path-true tail (IsTail-path tail h))
      (unfold in_path in refl)

pub ends_to-tail :
    (tail after : Bytes) → IsTail tail → ends_to (next_byte (tail ++ b'"' ∷ after)) ≡ true
unfolding ends_to
ends_to-tail [] after h = refl
ends_to-tail (c ∷ s) after h = ground arith

at_segment-tail : (tail : Bytes) → IsTail tail → at_segment tail ≡ true
unfolding at_segment
at_segment-tail [] h = refl
at_segment-tail (c ∷ s) h = h.0

pub is_alpha-ne : (d : ℕ) → is_alpha d ≡ true → (d == b'/') ≡ false
unfolding is_alpha
is_alpha-ne d h = ground arith

pub drive_hit-append :
    (ms : List PathMapping) (a b c : ℕ) (r q : Bytes)
    → is_alpha a ≡ true
    → (b == b':') ≡ true
    → drive_hit ms (a ∷ b ∷ (r ++ c ∷ q)) ≡ match_drive (to_lower_byte a) (r ++ c ∷ q) ms
unfolding drive_hit
drive_hit-append ms a b c [] q ha hb = rw (ha, hb)
drive_hit-append ms a b c (x ∷ r) q ha hb = rw (ha, hb)

drive_hit_other :
    (ms : List PathMapping) (c : ℕ) (s : Bytes)
    → is_alpha c ≡ false
    → drive_hit ms (c ∷ s) ≡ done none
unfolding drive_hit
drive_hit_other ms c [] h = refl
drive_hit_other ms c (x ∷ []) h = refl
drive_hit_other ms c (x ∷ y ∷ s) h = rw h

unc_hit_other :
    (ms : List PathMapping) (c : ℕ) (s : Bytes) → (c == b'\\') ≡ false → unc_hit ms (c ∷ s) ≡ none
unfolding unc_hit
unc_hit_other ms c [] h = refl
unc_hit_other ms c (x ∷ s) h = rw h

wsl_hit_other :
    (ms : List PathMapping) (c : ℕ) (s : Bytes) → (c == b'/') ≡ false → wsl_hit ms (c ∷ s) ≡ none
unfolding wsl_hit wsl_here
wsl_hit_other ms c s h = ground arith

-- No rewrite begins at a byte that is no letter, slash or backslash.
pub container_hit_other :
    (ms : List PathMapping) (c : ℕ) (s : Bytes)
    → is_alpha c ≡ false
    → (c == b'\\') ≡ false
    → (c == b'/') ≡ false
    → container_hit ms (c ∷ s) ≡ done none
unfolding or_else container_hit
container_hit_other ms c s ha hb hs =
    rw (drive_hit_other ms c s ha, container_hit, unc_hit_other ms c s hb, wsl_hit_other ms c s hs)

pub slice_from_two : (a b : ℕ) (p : Bytes) → slice_from 2 (a ∷ b ∷ p) ≡ done p
unfolding slice_from
slice_from_two a b p = ground arith

pub replace_path-append :
    (p to tail rest : Bytes)
    → IsTail tail
    → replace_path p to (p ++ tail, rest) ≡ some (to ++ tail, rest)
unfolding replace_path
replace_path-append p to tail rest h =
    rw (strip_prefix-append p tail, replace_path, at_segment-tail tail h)
