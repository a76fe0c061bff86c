-- ===== src/Detect/Winner.antt =====
-- Which stack wins.
use mathlib.Core.List.{Permᴰ, Memᴰ}
use mathlib.Core.List.Permᴰ
use ccbox.Common.{◌≤◌, ◌≡◌, refl, ap, Bool, true, false, List, [], ◌∷◌, arith, All, codes}
use ccbox.Detect.Patterns.{Patterns, language_patterns}
use ccbox.Detect.Defs.{LanguageDetection, Directory}
use ccbox.Detect.Project.{filtered, top_stack, has_web, recommend, result_of, detect_project_type}
use ccbox.Detect.Order.{has_language-Perm, Mem-Perm}
use ccbox.Detect.Recommend.{IsSorted, Sorts, IsTop, TopAgrees, filtered-Perm}

pub All-Mem {κ} :
    (P : LanguageDetection → Type κ) (l : List LanguageDetection) (e : LanguageDetection)
    → All P l
    → Memᴰ e l
    → (x : LanguageDetection) × (e ≡ x) × P x
All-Mem P (x ∷ l) e h (Memᴰ.head s) = (x, s, h.0)
All-Mem P (x ∷ l) e h (Memᴰ.tail m) = All-Mem P l e h.1 m
All-Mem P [] e h m = elim m [ ]

-- The head of a sorted list is a top of every list with the same detections.
head-IsTop :
    (l : List LanguageDetection) (d : LanguageDetection) (ds : List LanguageDetection)
    → Permᴰ (d ∷ ds) l
    → IsSorted (d ∷ ds)
    → IsTop l d
head-IsTop l d ds p s e m = elim (Mem-Perm (Permᴰ.symm p) m) [
  | Memᴰ.head same ↦ omega (arith, ap (λ x. x.confidence) same)
  | Memᴰ.tail later ↦
      let (x, same, h) = All-Mem (λ x. x.confidence ≤ d.confidence) ds e s.0 later in
      omega (arith, ap (λ x. x.confidence) same, h)
]

top_stack-Perm :
    (l l1 l2 : List LanguageDetection)
    → Permᴰ l1 l
    → Permᴰ l2 l
    → IsSorted l1
    → IsSorted l2
    → TopAgrees l
    → top_stack l1 ≡ top_stack l2
unfolding top_stack
top_stack-Perm l [] [] p q s t h = refl
top_stack-Perm l [] (d ∷ ds) p q s t h =
    elim (Mem-Perm (Permᴰ.trans q (Permᴰ.symm p)) (Memᴰ.head {x = d} {xs = ds} refl)) [ ]
top_stack-Perm l (d ∷ ds) [] p q s t h =
    elim (Mem-Perm (Permᴰ.trans p (Permᴰ.symm q)) (Memᴰ.head {x = d} {xs = ds} refl)) [ ]
top_stack-Perm l (d ∷ ds) (e ∷ es) p q s t h =
    h d e (Mem-Perm p (Memᴰ.head refl)) (Mem-Perm q (Memᴰ.head refl)) (head-IsTop l d ds p s)
      (head-IsTop l e es q t)

has_web-Perm : {l m : List LanguageDetection} → Permᴰ l m → has_web l ≡ has_web m
unfolding has_web
has_web-Perm d =
    rw
      (
        has_language-Perm (codes "typescript") d,
        has_language-Perm (codes "node") d,
        has_language-Perm (codes "bun") d,
        has_language-Perm (codes "deno") d,
      )
      refl

recommend-Perm :
    (l l1 l2 : List LanguageDetection)
    → Permᴰ l1 l
    → Permᴰ l2 l
    → IsSorted l1
    → IsSorted l2
    → TopAgrees l
    → (recommend l1).recommended_stack ≡ (recommend l2).recommended_stack
unfolding recommend
recommend-Perm l l1 l2 p q s t h =
    let d = Permᴰ.trans p (Permᴰ.symm q) in
    rw (has_web-Perm d, has_language-Perm (codes "python") d, top_stack-Perm l l1 l2 p q s t h) refl

result_of-Perm :
    (b : Bool) (l l1 l2 : List LanguageDetection)
    → Permᴰ l1 l
    → Permᴰ l2 l
    → IsSorted l1
    → IsSorted l2
    → TopAgrees l
    → (result_of b l1).recommended_stack ≡ (result_of b l2).recommended_stack
unfolding result_of
result_of-Perm false l l1 l2 p q s t h = refl
result_of-Perm true l l1 l2 p q s t h = recommend-Perm l l1 l2 p q s t h

-- Where the detections with the highest score agree on their stack, the recommended stack depends
-- neither on the order in which the map of the patterns is visited nor on how the sort orders equal
-- scores.
pub detect_project_type-order :
    (dir : Directory) (p q : List Patterns)
    (sort sort' : List LanguageDetection → List LanguageDetection)
    → Permᴰ p language_patterns
    → Permᴰ q language_patterns
    → Sorts sort
    → Sorts sort'
    → TopAgrees (filtered dir p)
    → (detect_project_type sort dir p).recommended_stack
      ≡ (detect_project_type sort' dir q).recommended_stack
unfolding detect_project_type
detect_project_type-order dir p q sort sort' dp dq s t h =
    result_of-Perm dir.exists (filtered dir p) (sort (filtered dir p)) (sort' (filtered dir q))
      (s.same (filtered dir p)) (Permᴰ.trans (t.same (filtered dir q)) (filtered-Perm dir dq dp))
      (s.sorted (filtered dir p)) (t.sorted (filtered dir q)) h
