-- ===== src/Detect/Recommend.antt =====
-- The recommended stack.
use mathlib.Core.List.{Permᴰ, Memᴰ}
use mathlib.Core.List.Permᴰ
use ccbox.Common.{
  ◌≤◌, ◌≡◌, refl, Bool, true, false, List, [], ◌∷◌, ◌++◌, arith, if◌then◌else◌, All, Bytes,
}
use ccbox.Detect.Patterns.{Patterns, language_patterns}
use ccbox.Detect.Defs.{LanguageDetection, Directory, detect_package_manager}
use ccbox.Detect.Project.{
  from_manager, detect_languages, has_primary, demote_cpp, SuppressionRule, suppression_rules,
  is_suppressed, without_suppressed, filtered,
}
use ccbox.Detect.Order.{
  has_language-Perm, has_primary-Perm, map-Perm, detect_languages-Perm, count_cpp, count_keys-Perm,
  count_keys_one, detect_languages-count_cpp, from_manager-count_cpp, count_cpp-append, demote_one,
  demote_cpp-map,
}

-- Each score is at least those behind it.
abbrev pub IsSorted : List LanguageDetection → Type 0
IsSorted [] = Unit
IsSorted (d ∷ ds) = All (λ e. e.confidence ≤ d.confidence) ds × IsSorted ds

-- What `sort.Slice` promises: the same detections, the highest scores first. It says nothing about the
-- order of equal ones.
pub record Sorts (sort : List LanguageDetection → List LanguageDetection) : Type 0 where
  pub same : (l : List LanguageDetection) → Permᴰ (sort l) l
  pub sorted : (l : List LanguageDetection) → IsSorted (sort l)

-- No score is higher.
abbrev pub IsTop : List LanguageDetection → LanguageDetection → Type 0
IsTop l d = (e : LanguageDetection) → Memᴰ e l → e.confidence ≤ d.confidence

-- The detections with the highest score agree on the stack.
abbrev pub TopAgrees : List LanguageDetection → Type 0
TopAgrees l =
    (d e : LanguageDetection) → Memᴰ d l → Memᴰ e l → IsTop l d → IsTop l e → d.stack ≡ e.stack

pub is_suppressed-Perm :
    (rs : List SuppressionRule) (lang : Bytes) {l m : List LanguageDetection}
    → Permᴰ l m
    → is_suppressed rs l lang ≡ is_suppressed rs m lang
unfolding is_suppressed
is_suppressed-Perm [] lang d = refl
is_suppressed-Perm (r ∷ rs) lang d =
    rw (has_language-Perm r.if_lang d, has_language-Perm r.suppress d, is_suppressed-Perm rs lang d)
      refl

without_suppressed-all :
    {all all' : List LanguageDetection} (l : List LanguageDetection)
    → Permᴰ all all'
    → without_suppressed all l ≡ without_suppressed all' l
unfolding without_suppressed
without_suppressed-all [] d = refl
without_suppressed-all (x ∷ l) d =
    rw (is_suppressed-Perm suppression_rules x.language d, without_suppressed-all l d) refl

keep : Bool → LanguageDetection → List LanguageDetection → List LanguageDetection
keep b d ds = if b then ds else d ∷ ds

keep-Perm :
    (b : Bool) (x : LanguageDetection) {l m : List LanguageDetection}
    → Permᴰ l m
    → Permᴰ (keep b x l) (keep b x m)
unfolding keep
keep-Perm true x d = d
keep-Perm false x d = Permᴰ.cons refl d

keep_swap :
    (b c : Bool) (x y : LanguageDetection) (l : List LanguageDetection)
    → Permᴰ (keep b x (keep c y l)) (keep c y (keep b x l))
unfolding keep
keep_swap true c x y l = Permᴰ.refl _
keep_swap false true x y l = Permᴰ.refl _
keep_swap false false x y l = Permᴰ.swap refl refl

without_suppressed-Perm :
    (all : List LanguageDetection) {l m : List LanguageDetection}
    → Permᴰ l m
    → Permᴰ (without_suppressed all l) (without_suppressed all m)
unfolding without_suppressed keep
without_suppressed-Perm all Permᴰ.nil = Permᴰ.nil
without_suppressed-Perm all (Permᴰ.cons {b = b} e d) =
    rw e
      (keep-Perm (is_suppressed suppression_rules all b.language) b (without_suppressed-Perm all d))
without_suppressed-Perm all (Permᴰ.swap {a' = a} {b' = b} {l = l} e1 e2) =
    rw (e1, e2)
      (keep_swap (is_suppressed suppression_rules all b.language)
        (is_suppressed suppression_rules all a.language) b a (without_suppressed all l))
without_suppressed-Perm all (Permᴰ.trans d1 d2) =
    Permᴰ.trans (without_suppressed-Perm all d1) (without_suppressed-Perm all d2)

demote_cpp-Perm :
    {l m : List LanguageDetection}
    → Permᴰ l m
    → count_cpp l ≤ 1
    → count_cpp m ≤ 1
    → Permᴰ (demote_cpp (has_primary l) l) (demote_cpp (has_primary m) m)
demote_cpp-Perm {l} {m} d h g =
    rw (demote_cpp-map (has_primary l) l h, demote_cpp-map (has_primary m) m g, has_primary-Perm d)
      (map-Perm (demote_one (has_primary m)) d)

-- The detections of a directory before the exclusion.
found : Directory → List Patterns → List LanguageDetection
found dir p =
    from_manager (detect_package_manager dir)
    ++ detect_languages dir (from_manager (detect_package_manager dir)) p

found-count_cpp :
    (dir : Directory) (p : List Patterns) → Permᴰ p language_patterns → count_cpp (found dir p) ≤ 1
unfolding found
found-count_cpp dir p d =
    let known = from_manager (detect_package_manager dir) in
    omega (
      arith,
      count_cpp-append known (detect_languages dir known p),
      from_manager-count_cpp (detect_package_manager dir),
      detect_languages-count_cpp dir known p,
      count_keys-Perm d,
      count_keys_one,
    )

pub filtered-Perm :
    (dir : Directory) {p q : List Patterns}
    → Permᴰ p language_patterns
    → Permᴰ q language_patterns
    → Permᴰ (filtered dir p) (filtered dir q)
unfolding filtered found
filtered-Perm dir {p} {q} dp dq =
    let known = from_manager (detect_package_manager dir) in
    let order = Permᴰ.trans dp (Permᴰ.symm dq) in
    let lists = Permᴰ.append_left known (detect_languages-Perm dir known order) in
    let changed = demote_cpp-Perm lists (found-count_cpp dir p dp) (found-count_cpp dir q dq) in
    rw (without_suppressed-all (demote_cpp (has_primary (found dir p)) (found dir p)) changed)
      (without_suppressed-Perm (demote_cpp (has_primary (found dir q)) (found dir q)) changed)
