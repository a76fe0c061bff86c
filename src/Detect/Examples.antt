-- ===== src/Detect/Examples.antt =====
-- The detection at concrete directories, with an insertion sort.
use mathlib.Core.List.{Permᴰ, Memᴰ, reverse}
use mathlib.Core.Path.{subst}
use mathlib.Core.List.Permᴰ
use ccbox.Common.{
  ◌&&◌, ℕ, ◌≤◌, ◌≡◌, refl, ap, sym, ◌∙◌, inl, inr, true, false, none, some, List, [], ◌∷◌, arith,
  leb, if◌then◌else◌, All, All-map, Bytes, codes, equal, strip_prefix, Bool-cases,
}
use ccbox.Paths.Defs.{contains_bytes}
use ccbox.Stacks.Defs.{stack_go, stack_rust, stack_web}
use ccbox.Detect.Patterns.{language_patterns}
use ccbox.Detect.Defs.{
  LanguageDetection, Directory, has_matching_file, validate, scale_source_confidence,
  source_extensions, detect_package_manager, one_of, language_to_stack, any_matches, get_dir_files,
  file_names,
}
use ccbox.Detect.Project.{
  has_language, detect_language, adjusted, is_suppressed, filtered, top_stack, has_web, recommend,
  detect_project_type,
}
use ccbox.Detect.Recommend.{IsSorted, Sorts, TopAgrees}
use ccbox.Detect.Winner.{detect_project_type-order}
use ccbox.Detect.Suppression.{detect_project_type-suppression_rules}

insert : LanguageDetection → List LanguageDetection → List LanguageDetection
insert d [] = d ∷ []
insert d (e ∷ es) =
    let rest = insert d es in if leb e.confidence d.confidence then d ∷ e ∷ es else e ∷ rest

insertion_sort : List LanguageDetection → List LanguageDetection
unfolding insert
insertion_sort [] = []
insertion_sort (d ∷ ds) = insert d (insertion_sort ds)

insert-Perm : (d : LanguageDetection) (l : List LanguageDetection) → Permᴰ (insert d l) (d ∷ l)
unfolding insert
insert-Perm d [] = Permᴰ.refl _
insert-Perm d (e ∷ es) = elim (Bool-cases (leb e.confidence d.confidence)) [
  | inl t ↦ rw t (Permᴰ.refl _)
  | inr f ↦ rw f (Permᴰ.trans (Permᴰ.cons refl (insert-Perm d es)) (Permᴰ.swap refl refl))
]

insert-All :
    (n : ℕ) (d : LanguageDetection) (l : List LanguageDetection)
    → d.confidence ≤ n
    → All (λ e. e.confidence ≤ n) l
    → All (λ e. e.confidence ≤ n) (insert d l)
unfolding insert
insert-All n d [] h a = (h, tt)
insert-All n d (e ∷ es) h a = elim (Bool-cases (leb e.confidence d.confidence)) [
  | inl t ↦ rw t (h, a)
  | inr f ↦ rw f (a.0, insert-All n d es h a.1)
]

insert-IsSorted :
    (d : LanguageDetection) (l : List LanguageDetection) → IsSorted l → IsSorted (insert d l)
unfolding insert
insert-IsSorted d [] s = (tt, tt)
insert-IsSorted d (e ∷ es) s = elim (Bool-cases (leb e.confidence d.confidence)) [
  | inl t ↦
      let small : e.confidence ≤ d.confidence = ground (arith, t) in
      rw t (
        (
          small,
          All-map (λ x. x.confidence ≤ e.confidence) (λ x. x.confidence ≤ d.confidence) es
              (λ x h. omega (arith, h, small)) s.0,
        ),
        s,
      )
  | inr f ↦ rw f (insert-All e.confidence d es (ground (arith, f)) s.0, insert-IsSorted d es s.1)
]

insertion_sort-Perm : (l : List LanguageDetection) → Permᴰ (insertion_sort l) l
unfolding insertion_sort
insertion_sort-Perm [] = Permᴰ.nil
insertion_sort-Perm (d ∷ l) =
    Permᴰ.trans (insert-Perm d (insertion_sort l)) (Permᴰ.cons refl (insertion_sort-Perm l))

insertion_sort-IsSorted : (l : List LanguageDetection) → IsSorted (insertion_sort l)
unfolding insertion_sort
insertion_sort-IsSorted [] = tt
insertion_sort-IsSorted (d ∷ l) = insert-IsSorted d (insertion_sort l) (insertion_sort-IsSorted l)

insertion_sort-Sorts : Sorts insertion_sort
insertion_sort-Sorts = record { same = insertion_sort-Perm; sorted = insertion_sort-IsSorted }

-- A directory with some files, and nothing in them.
abbrev holding : List Bytes → Directory
holding names = record {
  exists = true;
  stat = λ name. one_of name names;
  read_dir = some [];
  open_read = λ name n. none;
  package_manager_field = none;
}

abbrev go_dir : Directory
go_dir = holding (codes "go.mod" ∷ [])

abbrev go_detection : LanguageDetection
go_detection = record {
  language = codes "go";
  confidence = 90;
  trigger = codes "go.mod";
  stack = stack_go;
}

go_dir-filtered : filtered go_dir language_patterns ≡ go_detection ∷ []
unfolding filtered equal detect_package_manager one_of detect_language has_language
    has_matching_file contains_bytes strip_prefix any_matches get_dir_files file_names adjusted
    scale_source_confidence source_extensions validate is_suppressed language_to_stack
go_dir-filtered = refl

single-TopAgrees : (x : LanguageDetection) → TopAgrees (x ∷ [])
single-TopAgrees x d e (Memᴰ.head s) (Memᴰ.head t) h k = ap (λ y. y.stack) (s ∙ sym t)
single-TopAgrees x d e (Memᴰ.head s) (Memᴰ.tail t) h k = elim t [ ]
single-TopAgrees x d e (Memᴰ.tail s) t h k = elim s [ ]

detect_project_type-order_example :
    (detect_project_type insertion_sort go_dir language_patterns).recommended_stack
    ≡ (detect_project_type insertion_sort go_dir (reverse language_patterns)).recommended_stack
detect_project_type-order_example =
    detect_project_type-order go_dir language_patterns (reverse language_patterns) insertion_sort
      insertion_sort (Permᴰ.refl language_patterns) (Permᴰ.reverse language_patterns)
      insertion_sort-Sorts insertion_sort-Sorts
      (subst TopAgrees (sym go_dir-filtered) (single-TopAgrees go_detection))

-- TypeScript suppresses Node.
abbrev web_dir : Directory
web_dir = holding (codes "package.json" ∷ codes "tsconfig.json" ∷ [])

abbrev ts_detection : LanguageDetection
ts_detection = record {
  language = codes "typescript";
  confidence = 90;
  trigger = codes "tsconfig.json";
  stack = stack_web;
}

web_dir-detect_project_type :
    (detect_project_type insertion_sort web_dir language_patterns).detected_languages
    ≡ ts_detection ∷ []
unfolding detect_project_type recommend insertion_sort insert filtered equal detect_package_manager
    one_of detect_language has_language has_matching_file contains_bytes strip_prefix any_matches
    get_dir_files file_names adjusted scale_source_confidence source_extensions validate
    is_suppressed language_to_stack
web_dir-detect_project_type = refl

detect_project_type-suppression_rules_example :
    (has_language
        (codes "typescript")
        (detect_project_type insertion_sort web_dir language_patterns).detected_languages
      && has_language
          (codes "node")
          (detect_project_type insertion_sort web_dir language_patterns).detected_languages)
    ≡ false
detect_project_type-suppression_rules_example =
    detect_project_type-suppression_rules web_dir language_patterns insertion_sort
      (record { if_lang = codes "typescript"; suppress = codes "node" }) insertion_sort-Sorts
      (Memᴰ.head refl)

-- With two lock files of the same score, the order in which the map is visited decides.
abbrev two_locks : Directory
two_locks = holding (codes "go.sum" ∷ codes "Cargo.lock" ∷ [])

two_locks_in_order :
    (detect_project_type insertion_sort two_locks language_patterns).recommended_stack ≡ stack_go
unfolding detect_project_type recommend insertion_sort insert top_stack has_web filtered equal
    detect_package_manager one_of detect_language has_language has_matching_file contains_bytes
    strip_prefix any_matches get_dir_files file_names adjusted scale_source_confidence
    source_extensions validate is_suppressed language_to_stack
two_locks_in_order = refl

two_locks_reversed :
    (detect_project_type insertion_sort two_locks (reverse language_patterns)).recommended_stack
    ≡ stack_rust
unfolding detect_project_type recommend insertion_sort insert top_stack has_web filtered equal
    detect_package_manager one_of detect_language has_language has_matching_file contains_bytes
    strip_prefix any_matches get_dir_files file_names adjusted scale_source_confidence
    source_extensions validate is_suppressed language_to_stack
two_locks_reversed = refl
