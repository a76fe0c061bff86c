-- ===== src/Run/Naming/Bounds.antt =====
-- The form and the length of a container's name.
use ccbox.Common.{
  ℕ, ◌≡◌, ◌≤◌, refl, ◌+◌, Bool, true, false, ◌&&◌, ◌==◌, ltb, some, [], ◌∷◌, ◌++◌, All, All-append,
  length-append, Bytes, codes, length, if◌then◌else◌, zero, suc, arith, Bool-cases, inl, inr,
}
use ccbox.Run.Mounts.{take_bytes}
use ccbox.Run.Naming.{
  is_safe, replace_unsafe, begins_with_hyphen, collapse_hyphens, trim_left_hyphens, cons_trimmed,
  trim_right_hyphens, shorten, or_project, safe_name, get_container_name, max_project_name_length,
}

abbrev pub AllSafe : Bytes → Type 0
AllSafe s = All (λ c. is_safe c ≡ true) s

replaced : (c : ℕ) → is_safe (if is_safe c then c else b'-') ≡ true
unfolding is_safe
replaced c = elim (Bool-cases (is_safe c)) [ inl e ↦ rw e e | inr n ↦ rw n refl ]

replace_unsafe-AllSafe : (s : Bytes) → AllSafe (replace_unsafe s)
unfolding replace_unsafe
replace_unsafe-AllSafe [] = tt
replace_unsafe-AllSafe (c ∷ s) = (replaced c, replace_unsafe-AllSafe s)

either_safe : (b : Bool) (s t : Bytes) → AllSafe s → AllSafe t → AllSafe (if b then s else t)
either_safe true s t h k = h
either_safe false s t h k = k

collapse_hyphens-AllSafe : (s : Bytes) → AllSafe s → AllSafe (collapse_hyphens s)
unfolding collapse_hyphens
collapse_hyphens-AllSafe [] h = tt
collapse_hyphens-AllSafe (c ∷ s) (h, k) =
    let rest = collapse_hyphens-AllSafe s k in
    either_safe (c == b'-' && begins_with_hyphen s) (collapse_hyphens s) (c ∷ collapse_hyphens s)
      rest (h, rest)

trim_left_hyphens-AllSafe : (s : Bytes) → AllSafe s → AllSafe (trim_left_hyphens s)
unfolding trim_left_hyphens
trim_left_hyphens-AllSafe [] h = tt
trim_left_hyphens-AllSafe (c ∷ s) (h, k) =
    either_safe (c == b'-') (trim_left_hyphens s) (c ∷ s) (trim_left_hyphens-AllSafe s k) (h, k)

cons_trimmed-AllSafe :
    (c : ℕ) (s : Bytes) → is_safe c ≡ true → AllSafe s → AllSafe (cons_trimmed c s)
unfolding cons_trimmed
cons_trimmed-AllSafe c [] h k = either_safe (c == b'-') [] (c ∷ []) tt (h, tt)
cons_trimmed-AllSafe c (d ∷ s) h k = (h, k)

trim_right_hyphens-AllSafe : (s : Bytes) → AllSafe s → AllSafe (trim_right_hyphens s)
unfolding trim_right_hyphens
trim_right_hyphens-AllSafe [] h = tt
trim_right_hyphens-AllSafe (c ∷ s) (h, k) =
    cons_trimmed-AllSafe c (trim_right_hyphens s) h (trim_right_hyphens-AllSafe s k)

take_bytes-AllSafe : (n : ℕ) (s : Bytes) → AllSafe s → AllSafe (take_bytes n s)
unfolding take_bytes
take_bytes-AllSafe zero s h = tt
take_bytes-AllSafe (suc n) [] h = tt
take_bytes-AllSafe (suc n) (c ∷ s) (h, k) = (h, take_bytes-AllSafe n s k)

shorten-AllSafe : (s : Bytes) → AllSafe s → AllSafe (shorten s)
unfolding shorten
shorten-AllSafe s h =
    either_safe (ltb max_project_name_length (length s))
      (trim_right_hyphens (take_bytes max_project_name_length s)) s
      (trim_right_hyphens-AllSafe _ (take_bytes-AllSafe max_project_name_length s h)) h

or_project-AllSafe : (s : Bytes) → AllSafe s → AllSafe (or_project s)
unfolding or_project is_safe
or_project-AllSafe [] h = (refl, (refl, (refl, (refl, (refl, (refl, (refl, tt)))))))
or_project-AllSafe (c ∷ s) h = h

length-cons_trimmed : (c : ℕ) (s : Bytes) → length (cons_trimmed c s) ≤ 1 + length s
unfolding cons_trimmed
length-cons_trimmed c [] = ground arith
length-cons_trimmed c (d ∷ s) = omega arith

length-trim_right_hyphens : (s : Bytes) → length (trim_right_hyphens s) ≤ length s
unfolding trim_right_hyphens
length-trim_right_hyphens [] = omega arith
length-trim_right_hyphens (c ∷ s) =
    omega (arith, length-cons_trimmed c (trim_right_hyphens s), length-trim_right_hyphens s)

length-take_bytes : (n : ℕ) (s : Bytes) → length (take_bytes n s) ≤ n
unfolding take_bytes
length-take_bytes zero s = omega arith
length-take_bytes (suc n) [] = omega arith
length-take_bytes (suc n) (c ∷ s) = omega (arith, length-take_bytes n s)

shorter_of :
    (n : ℕ) (b : Bool) (s t : Bytes)
    → length s ≤ n
    → (b ≡ false → length t ≤ n)
    → length (if b then s else t) ≤ n
shorter_of n true s t h k = h
shorter_of n false s t h k = k refl

within : (n k : ℕ) → ltb n k ≡ false → k ≤ n
within n k h = ground (arith, h)

length-trim_right_hyphens-take_bytes :
    (n : ℕ) (s : Bytes) → length (trim_right_hyphens (take_bytes n s)) ≤ n
length-trim_right_hyphens-take_bytes n s =
    omega (arith, length-trim_right_hyphens (take_bytes n s), length-take_bytes n s)

length-shorten : (s : Bytes) → length (shorten s) ≤ max_project_name_length
unfolding shorten
length-shorten s =
    shorter_of max_project_name_length (ltb max_project_name_length (length s))
      (trim_right_hyphens (take_bytes max_project_name_length s)) s
      (length-trim_right_hyphens-take_bytes max_project_name_length s)
      (within max_project_name_length (length s))

length-or_project :
    (s : Bytes) → length s ≤ 50 → (1 ≤ length (or_project s)) × (length (or_project s) ≤ 50)
unfolding or_project
length-or_project [] h = (omega arith, omega arith)
length-or_project (c ∷ s) h = (omega arith, omega (arith, h))

module _ (to_lower : Bytes → Bytes) (project_name : Bytes) where
  safe_name-AllSafe : AllSafe (safe_name to_lower project_name)
  unfolding safe_name
  safe_name-AllSafe = or_project-AllSafe _ (
      shorten-AllSafe _ (
        trim_right_hyphens-AllSafe _ (
          trim_left_hyphens-AllSafe _
            (collapse_hyphens-AllSafe _ (replace_unsafe-AllSafe (to_lower project_name))))))

  length-safe_name :
      (1 ≤ length (safe_name to_lower project_name))
      × (length (safe_name to_lower project_name) ≤ 50)
  unfolding safe_name
  length-safe_name =
      let s =
        trim_right_hyphens
          (trim_left_hyphens (collapse_hyphens (replace_unsafe (to_lower project_name)))) in
      length-or_project (shorten s) (length-shorten s)

-- With a suffix of at most six allowed bytes, a container's name has only lower-case letters, digits,
-- underscores and hyphens, at least 8 and at most 63 of them.
pub get_container_name-AllSafe :
    (to_lower : Bytes → Bytes) (project_name suffix : Bytes)
    → AllSafe suffix
    → length suffix ≤ 6
    → AllSafe (get_container_name to_lower project_name (some suffix))
      × (8 ≤ length (get_container_name to_lower project_name (some suffix)))
      × (length (get_container_name to_lower project_name (some suffix)) ≤ 63)
unfolding get_container_name is_safe
get_container_name-AllSafe to_lower project_name suffix h n =
    let name = safe_name to_lower project_name in
    let (low, high) = length-safe_name to_lower project_name in
    let total = length-append name (b'_' ∷ suffix) in
    (
      All-append (λ c. is_safe c ≡ true) (codes "ccbox_") (name ++ b'_' ∷ suffix)
          (refl, (refl, (refl, (refl, (refl, (refl, tt))))))
          (All-append (λ c. is_safe c ≡ true) name (b'_' ∷ suffix)
            (safe_name-AllSafe to_lower project_name) (refl, h)),
      omega (arith, low, total),
      omega (arith, high, total, n),
    )
