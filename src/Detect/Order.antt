-- ===== src/Detect/Order.antt =====
-- The detections and the order in which Go visits the map of the patterns: another order of the map is
-- another order of the detections.
use mathlib.Core.List.{Permᴰ, Memᴰ}
use mathlib.Core.List.Permᴰ
use ccbox.Common.{
  ℕ, ◌+◌, ◌≤◌, ◌≡◌, refl, ap, sym, ◌∙◌, inl, inr, Bool, ◌&&◌, Option, none, some, List, [], ◌∷◌,
  ◌++◌, map, arith, ltb, if◌then◌else◌, Bytes, codes, equal, Bool-cases, Option-cases,
}
use ccbox.Detect.Patterns.{Patterns, language_patterns}
use ccbox.Detect.Defs.{LanguageDetection, Directory, one_of}
use ccbox.Detect.Project.{
  from_manager, has_language, best_match, detection_of, detect_language, detect_languages,
  has_primary, demoted, demote_cpp,
}

pub has_language-Perm :
    (lang : Bytes) {l m : List LanguageDetection}
    → Permᴰ l m
    → has_language lang l ≡ has_language lang m
unfolding has_language
has_language-Perm lang Permᴰ.nil = refl
has_language-Perm lang (Permᴰ.cons e d) = rw (e, has_language-Perm lang d) refl
has_language-Perm lang (Permᴰ.swap e1 e2) = rw (e1, e2) (ground arith)
has_language-Perm lang (Permᴰ.trans d1 d2) = has_language-Perm lang d1 ∙ has_language-Perm lang d2

pub has_primary-Perm : {l m : List LanguageDetection} → Permᴰ l m → has_primary l ≡ has_primary m
unfolding has_primary
has_primary-Perm Permᴰ.nil = refl
has_primary-Perm (Permᴰ.cons e d) = rw (e, has_primary-Perm d) refl
has_primary-Perm (Permᴰ.swap e1 e2) = rw (e1, e2) (ground arith)
has_primary-Perm (Permᴰ.trans d1 d2) = has_primary-Perm d1 ∙ has_primary-Perm d2

pub map-Perm {ℓ κ} :
    {A : Type ℓ} {B : Type κ} (f : A → B) {l m : List A} → Permᴰ l m → Permᴰ (map f l) (map f m)
map-Perm f Permᴰ.nil = Permᴰ.nil
map-Perm f (Permᴰ.cons e d) = Permᴰ.cons (ap f e) (map-Perm f d)
map-Perm f (Permᴰ.swap e1 e2) = Permᴰ.swap (ap f e1) (ap f e2)
map-Perm f (Permᴰ.trans d1 d2) = Permᴰ.trans (map-Perm f d1) (map-Perm f d2)

pub Mem-Perm {ℓ} : {A : Type ℓ} {x : A} {l m : List A} → Permᴰ l m → Memᴰ x l → Memᴰ x m
Mem-Perm Permᴰ.nil h = elim h [ ]
Mem-Perm (Permᴰ.cons e d) (Memᴰ.head h) = Memᴰ.head (h ∙ e)
Mem-Perm (Permᴰ.cons e d) (Memᴰ.tail h) = Memᴰ.tail (Mem-Perm d h)
Mem-Perm (Permᴰ.swap e1 e2) (Memᴰ.head h) = Memᴰ.tail (Memᴰ.head (h ∙ e1))
Mem-Perm (Permᴰ.swap e1 e2) (Memᴰ.tail (Memᴰ.head h)) = Memᴰ.head (h ∙ e2)
Mem-Perm (Permᴰ.swap e1 e2) (Memᴰ.tail (Memᴰ.tail h)) = Memᴰ.tail (Memᴰ.tail h)
Mem-Perm (Permᴰ.trans d1 d2) h = Mem-Perm d2 (Mem-Perm d1 h)

-- What is found in front of the rest, if anything.
push_found : Option LanguageDetection → List LanguageDetection → List LanguageDetection
push_found none ds = ds
push_found (some d) ds = d ∷ ds

push_found-Perm :
    (o : Option LanguageDetection) {l m : List LanguageDetection}
    → Permᴰ l m
    → Permᴰ (push_found o l) (push_found o m)
unfolding push_found
push_found-Perm none d = d
push_found-Perm (some x) d = Permᴰ.cons refl d

push_found_swap :
    (o p : Option LanguageDetection) (l : List LanguageDetection)
    → Permᴰ (push_found o (push_found p l)) (push_found p (push_found o l))
unfolding push_found
push_found_swap none p l = Permᴰ.refl _
push_found_swap (some x) none l = Permᴰ.refl _
push_found_swap (some x) (some y) l = Permᴰ.swap refl refl

module _ (dir : Directory) (known : List LanguageDetection) where
  detect_languages-push_found :
      (p : Patterns) (ps : List Patterns)
      → detect_languages dir known (p ∷ ps)
        ≡ push_found (detect_language dir known p) (detect_languages dir known ps)
  unfolding detect_languages push_found
  detect_languages-push_found p ps = elim (Option-cases (detect_language dir known p)) [
    | inl n ↦ rw (n, detect_languages) refl
    | inr (d, s) ↦ rw (s, detect_languages) refl
  ]

  pub detect_languages-Perm :
      {p q : List Patterns}
      → Permᴰ p q
      → Permᴰ (detect_languages dir known p) (detect_languages dir known q)
  detect_languages-Perm Permᴰ.nil = Permᴰ.refl _
  detect_languages-Perm (Permᴰ.cons {a = a} {b = b} {l₁ = l} {l₂ = m} e d) =
      rw (detect_languages-push_found a l, detect_languages-push_found b m, e)
        (push_found-Perm (detect_language dir known b) (detect_languages-Perm d))
  detect_languages-Perm (Permᴰ.swap {a = a} {b = b} {a' = a'} {b' = b'} {l = l} e1 e2) =
      rw
        (
          detect_languages-push_found a (b ∷ l),
          detect_languages-push_found b l,
          detect_languages-push_found a' (b' ∷ l),
          detect_languages-push_found b' l,
          e1,
          e2,
        )
        (push_found_swap (detect_language dir known b') (detect_language dir known a')
          (detect_languages dir known l))
  detect_languages-Perm (Permᴰ.trans d1 d2) =
      Permᴰ.trans (detect_languages-Perm d1) (detect_languages-Perm d2)

-- How many detections are of C++, and how many of the keys are.
pub count_cpp : List LanguageDetection → ℕ
unfolding equal
count_cpp [] = 0
count_cpp (d ∷ ds) = (if equal d.language (codes "cpp") then 1 else 0) + count_cpp ds

pub count_keys : List Patterns → ℕ
unfolding equal
count_keys [] = 0
count_keys (p ∷ ps) = (if equal p.language (codes "cpp") then 1 else 0) + count_keys ps

pub count_keys-Perm : {p q : List Patterns} → Permᴰ p q → count_keys p ≡ count_keys q
unfolding count_keys
count_keys-Perm Permᴰ.nil = refl
count_keys-Perm (Permᴰ.cons e d) = rw (e, count_keys-Perm d) refl
count_keys-Perm (Permᴰ.swap e1 e2) = rw (e1, e2) (omega arith)
count_keys-Perm (Permᴰ.trans d1 d2) = count_keys-Perm d1 ∙ count_keys-Perm d2

pub count_keys_one : count_keys language_patterns ≡ 1
unfolding count_keys
count_keys_one = refl

detection_of_name :
    (lang : Bytes) (best : ℕ × Bytes) (d : LanguageDetection)
    → detection_of lang best ≡ some d
    → d.language ≡ lang
unfolding detection_of
detection_of_name lang (best, trigger) d h = elim (Bool-cases (ltb 0 best)) [
  | inl t ↦ ap (λ o. elim o [ none ↦ lang | some x ↦ x.language ]) (sym (rw t at h))
  | inr f ↦ absurd (ground (arith, (rw f at h)))
]

detect_language_name :
    (dir : Directory) (known : List LanguageDetection) (p : Patterns) (d : LanguageDetection)
    → detect_language dir known p ≡ some d
    → d.language ≡ p.language
unfolding detect_language
detect_language_name dir known p d h = elim (Bool-cases (has_language p.language known)) [
  | inl t ↦ absurd (ground (arith, (rw t at h)))
  | inr f ↦ detection_of_name p.language (best_match dir p.language 0 [] p.entries) d (rw f at h)
]

pub detect_languages-count_cpp :
    (dir : Directory) (known : List LanguageDetection) (ps : List Patterns)
    → count_cpp (detect_languages dir known ps) ≤ count_keys ps
unfolding count_cpp count_keys detect_languages
detect_languages-count_cpp dir known [] = omega arith
detect_languages-count_cpp dir known (p ∷ ps) = elim (Option-cases (detect_language dir known p)) [
  | inl n ↦ rw (n, detect_languages) (omega (arith, detect_languages-count_cpp dir known ps))
  | inr (d, s) ↦
      rw (s, detect_languages, detect_language_name dir known p d s)
        (omega (arith, detect_languages-count_cpp dir known ps))
]

pub from_manager-count_cpp : (manager : Bytes) → count_cpp (from_manager manager) ≡ 0
unfolding from_manager count_cpp
from_manager-count_cpp manager = elim (Bool-cases (equal manager (codes "bun"))) [
  | inl t ↦ rw (t, from_manager) refl
  | inr f ↦ elim (Bool-cases (one_of manager (codes "pnpm" ∷ codes "yarn" ∷ codes "npm" ∷ []))) [
    | inl t ↦ rw (f, t, from_manager) refl
    | inr g ↦ rw (f, g, from_manager) refl
  ]
]

pub count_cpp-append :
    (l m : List LanguageDetection) → count_cpp (l ++ m) ≡ count_cpp l + count_cpp m
unfolding count_cpp
count_cpp-append [] m = omega arith
count_cpp-append (d ∷ l) m = omega (arith, count_cpp-append l m)

unfoldable pub demote_one : Bool → LanguageDetection → LanguageDetection
unfolding demoted
demote_one primary d =
    if equal d.language (codes "cpp") && (equal d.trigger (codes "Makefile") && primary)
    then demoted d
    else d

demote_one_other :
    (primary : Bool) (l : List LanguageDetection) → count_cpp l ≡ 0 → map (demote_one primary) l ≡ l
unfolding demote_one count_cpp
demote_one_other primary [] h = refl
demote_one_other primary (d ∷ l) h = elim (Bool-cases (equal d.language (codes "cpp"))) [
  | inl t ↦ absurd (omega (arith, (rw t at h)))
  | inr f ↦ rw (f, demote_one_other primary l (omega (arith, h))) refl
]

-- With at most one detection of C++, the first is every one.
pub demote_cpp-map :
    (primary : Bool) (l : List LanguageDetection)
    → count_cpp l ≤ 1
    → demote_cpp primary l ≡ map (demote_one primary) l
unfolding demote_cpp demote_one count_cpp
demote_cpp-map primary [] h = refl
demote_cpp-map primary (d ∷ l) h = elim (Bool-cases (equal d.language (codes "cpp"))) [
  | inr f ↦ rw (f, demote_cpp-map primary l (omega (arith, (rw f at h)))) refl
  | inl t ↦
      let rest = demote_one_other primary l (omega (arith, (rw t at h))) in
      elim (Bool-cases (equal d.trigger (codes "Makefile") && primary)) [
        | inl g ↦ rw (t, g, rest) refl
        | inr g ↦ rw (t, g, rest) refl
      ]
]
