-- ===== src/Detect/Project.antt =====
-- internal/detect/detector.go: DetectProjectType, step by step. `patterns` is the map of the patterns in
-- the order in which the loop visits it, and `sort` is `sort.Slice` by confidence.
use ccbox.Common.{
  ℕ, Bool, true, false, not, ◌&&◌, ◌||◌, Option, none, some, List, [], ◌∷◌, ◌++◌, leb, ltb,
  if◌then◌else◌, Bytes, codes, equal,
}
use ccbox.Stacks.Defs.{LanguageStack, stack_base, stack_web, stack_fullstack}
use ccbox.Detect.Patterns.{
  PatternEntry, Patterns, conf_package_manager_field, conf_secondary_config, conf_makefile_demoted,
}
use ccbox.Detect.Defs.{
  LanguageDetection, DetectionResult, Directory, validate, has_matching_file,
  scale_source_confidence, detect_package_manager, one_of, language_to_stack,
}

-- The switch over the package manager.
unfoldable pub from_manager : Bytes → List LanguageDetection
from_manager manager =
    if equal manager (codes "bun")
    then record {
      language = codes "bun";
      confidence = conf_package_manager_field;
      trigger = codes "package.json#packageManager=bun";
      stack = stack_web;
    }
      ∷ []
    else if one_of manager (codes "pnpm" ∷ codes "yarn" ∷ codes "npm" ∷ [])
    then record {
      language = codes "node";
      confidence = conf_package_manager_field;
      trigger = codes "package.json#packageManager=" ++ manager;
      stack = stack_web;
    }
      ∷ []
    else []

unfoldable pub has_language : Bytes → List LanguageDetection → Bool
has_language lang [] = false
has_language lang (d ∷ ds) = equal d.language lang || has_language lang ds

-- The score of a pattern that a file matches.
unfoldable pub adjusted : Directory → Bytes → PatternEntry → ℕ
adjusted dir lang pe = scale_source_confidence dir lang (validate dir lang pe.pattern pe.confidence)

-- The loop over the patterns of a language, with the best score so far and its pattern.
unfoldable pub best_match : Directory → Bytes → ℕ → Bytes → List PatternEntry → ℕ × Bytes
best_match dir lang best trigger [] = (best, trigger)
best_match dir lang best trigger (pe ∷ pes) =
    let better = has_matching_file dir pe.pattern && ltb best (adjusted dir lang pe) in
    best_match dir lang (if better then adjusted dir lang pe else best)
      (if better then pe.pattern else trigger) pes

-- The end of the round of a language.
unfoldable pub detection_of : Bytes → ℕ × Bytes → Option LanguageDetection
detection_of lang (best, trigger) =
    if ltb 0 best
    then some (record {
      language = lang;
      confidence = best;
      trigger = trigger;
      stack = language_to_stack lang;
    })
    else none

unfoldable pub detect_language :
    Directory → List LanguageDetection → Patterns → Option LanguageDetection
unfolding detection_of best_match
detect_language dir known p =
    if has_language p.language known
    then none
    else detection_of p.language (best_match dir p.language 0 [] p.entries)

unfoldable pub detect_languages :
    Directory → List LanguageDetection → List Patterns → List LanguageDetection
detect_languages dir known [] = []
detect_languages dir known (p ∷ ps) = elim (detect_language dir known p) [
  | none ↦ detect_languages dir known ps
  | some d ↦ d ∷ detect_languages dir known ps
]

-- `d.Language != "cpp" && d.Confidence >= ConfSecondaryConfig`
unfoldable pub has_primary : List LanguageDetection → Bool
has_primary [] = false
has_primary (d ∷ ds) =
    (not (equal d.language (codes "cpp")) && leb conf_secondary_config d.confidence)
    || has_primary ds

unfoldable pub demoted : LanguageDetection → LanguageDetection
demoted d = record d { confidence = conf_makefile_demoted }

-- The first detection of C++, at `cppIdx`.
unfoldable pub demote_cpp : Bool → List LanguageDetection → List LanguageDetection
unfolding demoted
demote_cpp primary [] = []
demote_cpp primary (d ∷ ds) =
    let rest = demote_cpp primary ds in
    if equal d.language (codes "cpp")
    then (if equal d.trigger (codes "Makefile") && primary then demoted d ∷ ds else d ∷ ds)
    else d ∷ rest

pub record SuppressionRule : Type 0 where
  pub if_lang : Bytes
  pub suppress : Bytes

abbrev pub suppression_rules : List SuppressionRule
suppression_rules =
    record { if_lang = codes "typescript"; suppress = codes "node" }
    ∷ record { if_lang = codes "bun"; suppress = codes "node" }
    ∷ record { if_lang = codes "deno"; suppress = codes "node" }
    ∷ record { if_lang = codes "scala"; suppress = codes "java" }
    ∷ record { if_lang = codes "kotlin"; suppress = codes "java" }
    ∷ record { if_lang = codes "clojure"; suppress = codes "java" }
    ∷ []

-- `suppressedLangs[lang]`
unfoldable pub is_suppressed : List SuppressionRule → List LanguageDetection → Bytes → Bool
is_suppressed [] ds lang = false
is_suppressed (r ∷ rs) ds lang =
    (equal r.suppress lang && has_language r.if_lang ds && has_language r.suppress ds)
    || is_suppressed rs ds lang

-- The detections without those of suppressed languages.
unfoldable pub without_suppressed :
    List LanguageDetection → List LanguageDetection → List LanguageDetection
without_suppressed all [] = []
without_suppressed all (d ∷ ds) =
    let rest = without_suppressed all ds in
    if is_suppressed suppression_rules all d.language then rest else d ∷ rest

-- The detections behind the exclusion, in the order in which they were found.
unfoldable pub filtered : Directory → List Patterns → List LanguageDetection
unfolding from_manager detect_languages has_primary demote_cpp without_suppressed
filtered dir patterns =
    let known = from_manager (detect_package_manager dir) in
    let detections = known ++ detect_languages dir known patterns in
    let demoted_cpp = demote_cpp (has_primary detections) detections in
    without_suppressed demoted_cpp demoted_cpp

unfoldable pub top_stack : List LanguageDetection → LanguageStack
top_stack [] = stack_base
top_stack (d ∷ ds) = d.stack

-- `webFamily` over the languages.
unfoldable pub has_web : List LanguageDetection → Bool
unfolding has_language
has_web ds =
    has_language (codes "typescript") ds
    || has_language (codes "node") ds
    || has_language (codes "bun") ds
    || has_language (codes "deno") ds

-- The promotion, over the sorted detections.
unfoldable pub recommend : List LanguageDetection → DetectionResult
unfolding top_stack has_web
recommend ds = record {
  recommended_stack =
      if has_web ds && has_language (codes "python") ds then stack_fullstack else top_stack ds;
  detected_languages = ds;
}

-- The result, by whether the directory is there.
unfoldable pub result_of : Bool → List LanguageDetection → DetectionResult
unfolding recommend
result_of false ds = record { recommended_stack = stack_base; detected_languages = [] }
result_of true ds = recommend ds

unfoldable pub detect_project_type :
    (List LanguageDetection → List LanguageDetection) → Directory → List Patterns → DetectionResult
unfolding result_of filtered
detect_project_type sort dir patterns = result_of dir.exists (sort (filtered dir patterns))
