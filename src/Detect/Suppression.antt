-- ===== src/Detect/Suppression.antt =====
-- Which detections are left.
use mathlib.Core.List.{Permᴰ, Memᴰ}
use ccbox.Common.{
  ◌&&◌, equal, equal_iff, ◌≡◌, refl, ap, ◌∙◌, inl, inr, Bool, true, false, List, [], ◌∷◌, ◌++◌,
  arith, All, All-map, Bytes, Bool-cases,
}
use ccbox.Detect.Patterns.{Patterns}
use ccbox.Detect.Defs.{LanguageDetection, Directory, detect_package_manager}
use ccbox.Detect.Project.{
  from_manager, has_language, detect_languages, has_primary, demote_cpp, SuppressionRule,
  suppression_rules, is_suppressed, without_suppressed, filtered, recommend, result_of,
  detect_project_type,
}
use ccbox.Detect.Winner.{All-Mem}
use ccbox.Detect.Order.{Mem-Perm}
use ccbox.Detect.Recommend.{Sorts, is_suppressed-Perm}

has_language-without_suppressed :
    (lang : Bytes) (all l : List LanguageDetection)
    → has_language lang (without_suppressed all l) ≡ true
    → has_language lang l ≡ true
unfolding has_language without_suppressed
has_language-without_suppressed lang all [] h = h
has_language-without_suppressed lang all (d ∷ l) h =
    elim (Bool-cases (is_suppressed suppression_rules all d.language)) [
      | inl t ↦ ground (arith, has_language-without_suppressed lang all l (rw t at h))
      | inr f ↦ ground (arith, (rw f at h), has_language-without_suppressed lang all l)
    ]

is_suppressed-without_suppressed :
    (rs : List SuppressionRule) (lang : Bytes) (all l : List LanguageDetection)
    → is_suppressed rs l lang ≡ false
    → is_suppressed rs (without_suppressed all l) lang ≡ false
unfolding is_suppressed
is_suppressed-without_suppressed [] lang all l h = refl
is_suppressed-without_suppressed (r ∷ rs) lang all l h = ground (
  arith,
  h,
  is_suppressed-without_suppressed rs lang all l,
  has_language-without_suppressed r.if_lang all l,
  has_language-without_suppressed r.suppress all l,
)

without_suppressed-All :
    (all l : List LanguageDetection)
    → All (λ d. is_suppressed suppression_rules all d.language ≡ false) (without_suppressed all l)
unfolding without_suppressed
without_suppressed-All all [] = tt
without_suppressed-All all (d ∷ l) =
    elim (Bool-cases (is_suppressed suppression_rules all d.language)) [
      | inl t ↦ rw t (without_suppressed-All all l)
      | inr f ↦ rw f (f, without_suppressed-All all l)
    ]

filtered-All :
    (dir : Directory) (p : List Patterns)
    → All
        (λ d. is_suppressed suppression_rules (filtered dir p) d.language ≡ false)
        (filtered dir p)
unfolding filtered
filtered-All dir p =
    let known = from_manager (detect_package_manager dir) in
    let found = known ++ detect_languages dir known p in
    let all = demote_cpp (has_primary found) found in
    All-map _ (λ d. is_suppressed suppression_rules (without_suppressed all all) d.language ≡ false)
      (without_suppressed all all)
      (λ d h. is_suppressed-without_suppressed suppression_rules d.language all all h)
      (without_suppressed-All all all)

result_of-is_suppressed :
    (b : Bool) (l m : List LanguageDetection) (d : LanguageDetection)
    → Permᴰ m l
    → All (λ x. is_suppressed suppression_rules l x.language ≡ false) l
    → Memᴰ d (result_of b m).detected_languages
    → is_suppressed suppression_rules (result_of b m).detected_languages d.language ≡ false
unfolding result_of recommend
result_of-is_suppressed false l m d s a h = elim h [ ]
result_of-is_suppressed true l m d s a h =
    let (x, same, k) =
      All-Mem (λ x. is_suppressed suppression_rules l x.language ≡ false) l d a (Mem-Perm s h) in
    is_suppressed-Perm suppression_rules d.language s
    ∙ ap (λ x. is_suppressed suppression_rules l x.language) same
    ∙ k

detect_project_type-is_suppressed :
    (dir : Directory) (p : List Patterns) (sort : List LanguageDetection → List LanguageDetection)
    (d : LanguageDetection)
    → Sorts sort
    → Memᴰ d (detect_project_type sort dir p).detected_languages
    → is_suppressed suppression_rules (detect_project_type sort dir p).detected_languages d.language
      ≡ false
unfolding detect_project_type
detect_project_type-is_suppressed dir p sort d s m =
    result_of-is_suppressed dir.exists (filtered dir p) (sort (filtered dir p)) d
      (s.same (filtered dir p)) (filtered-All dir p) m

has_language-Mem :
    (lang : Bytes) (l : List LanguageDetection)
    → has_language lang l ≡ true
    → (d : LanguageDetection) × Memᴰ d l × (d.language ≡ lang)
unfolding has_language
has_language-Mem lang [] h = absurd (ground (arith, h))
has_language-Mem lang (d ∷ l) h = elim (Bool-cases (equal d.language lang)) [
  | inl t ↦ (d, Memᴰ.head refl, ground (arith, t, equal_iff d.language lang))
  | inr f ↦
      let (e, m, same) = has_language-Mem lang l (ground (arith, h, f)) in (e, Memᴰ.tail m, same)
]

is_suppressed-Mem :
    (rs : List SuppressionRule) (r : SuppressionRule) (l : List LanguageDetection)
    → Memᴰ r rs
    → has_language r.if_lang l ≡ true
    → has_language r.suppress l ≡ true
    → is_suppressed rs l r.suppress ≡ true
unfolding is_suppressed
is_suppressed-Mem (q ∷ rs) r l (Memᴰ.head e) h g =
    rw (← e, h, g, (equal_iff r.suppress r.suppress).1 refl) refl
is_suppressed-Mem (q ∷ rs) r l (Memᴰ.tail m) h g = ground (arith, is_suppressed-Mem rs r l m h g)
is_suppressed-Mem [] r l m h g = elim m [ ]

-- The two languages of a suppression rule, such as TypeScript and Node or Kotlin and Java, are never both
-- among the detected languages.
pub detect_project_type-suppression_rules :
    (dir : Directory) (p : List Patterns) (sort : List LanguageDetection → List LanguageDetection)
    (r : SuppressionRule)
    → Sorts sort
    → Memᴰ r suppression_rules
    → (has_language r.if_lang (detect_project_type sort dir p).detected_languages
        && has_language r.suppress (detect_project_type sort dir p).detected_languages)
      ≡ false
detect_project_type-suppression_rules dir p sort r s m =
    let res = (detect_project_type sort dir p).detected_languages in
    elim (Bool-cases (has_language r.if_lang res && has_language r.suppress res)) [
      | inr f ↦ f
      | inl t ↦
          let (d, inside, same) = has_language-Mem r.suppress res (ground (arith, t)) in
          let gone = detect_project_type-is_suppressed dir p sort d s inside in
          let there =
            is_suppressed-Mem suppression_rules r res m (ground (arith, t)) (ground (arith, t)) in
          absurd (ground (arith, ap (is_suppressed suppression_rules res) same, gone, there))
    ]
