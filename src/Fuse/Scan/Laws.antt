-- ===== src/Fuse/Scan/Laws.antt =====
-- The shared loop ends, and copies what no rewrite touches.
use ccbox.Common.{
  ℕ, zero, suc, ◌≤◌, ◌<◌, ◌≡◌, refl, ap, ◌∙◌, Bool, true, false, ◌||◌, none, some, [], ◌∷◌, ◌++◌,
  arith, length, Bytes, Outcome, done, panic, timeout, ◌>>=◌,
}
use ccbox.Fuse.Scan.{Hit, Matcher, Written, emit, resume, scan}

-- A matcher's answer at `s`: no panic, and a rewrite reads at least one byte.
abbrev pub Advances : Bytes → Outcome Hit → Type 0
Advances s (done none) = Unit
Advances s (done (some (out, rest))) = length rest < length s
Advances s panic = ⊥
Advances s timeout = ⊥

-- What a rewrite leaves, if it is one, is at most `n` bytes.
abbrev pub Leaves : ℕ → Hit → Type 0
Leaves n none = Unit
Leaves n (some (out, rest)) = length rest ≤ n

pub Leaves-Advances :
    (c : ℕ) (s : Bytes) (h : Hit) → Leaves (length s) h → Advances (c ∷ s) (done h)
Leaves-Advances c s none l = tt
Leaves-Advances c s (some (out, rest)) l = omega arith

abbrev pub Returns {ℓ} : {A : Type ℓ} → Outcome A → Type ℓ
Returns {A} r = (a : A) × (r ≡ done a)

emit-Returns :
    (out : Bytes) (hit : Bool) {r : Outcome Written} → Returns r → Returns (emit out hit r)
unfolding emit
emit-Returns out hit (w, e) = ((out ++ w.0, hit || w.1), ground arith)

resume-Returns :
    (fuel c : ℕ) (s : Bytes) (go : Bytes → Outcome Written) (r : Outcome Hit)
    → ((t : Bytes) → length t ≤ fuel → Returns (go t))
    → length s ≤ fuel
    → Advances (c ∷ s) r
    → Returns (r >>= resume go c s)
unfolding resume
resume-Returns fuel c s go (done none) later h a = emit-Returns (c ∷ []) false (later s h)
resume-Returns fuel c s go (done (some (out, rest))) later h a =
    emit-Returns out true (later rest (omega arith))
resume-Returns fuel c s go panic later h a = absurd a
resume-Returns fuel c s go timeout later h a = absurd a

pub scan-Returns :
    (fuel : ℕ) (rewrite : Matcher) (s : Bytes)
    → ((c : ℕ) (t : Bytes) → Advances (c ∷ t) (rewrite (c ∷ t)))
    → length s ≤ fuel
    → Returns (scan fuel rewrite s)
unfolding scan
scan-Returns fuel rewrite [] adv h = (([], false), refl)
scan-Returns zero rewrite (c ∷ s) adv h = absurd (omega arith)
scan-Returns (suc fuel) rewrite (c ∷ s) adv h =
    resume-Returns fuel c s (scan fuel rewrite) (rewrite (c ∷ s))
      (λ t k. scan-Returns fuel rewrite t adv k) (omega arith) (adv c s)

emit-eq-false :
    (out : Bytes) (hit : Bool) (r : Outcome Written) (w : Bytes)
    → emit out hit r ≡ done (w, false)
    → (v : Bytes) × (r ≡ done (v, false)) × (w ≡ out ++ v) × (hit ≡ false)
unfolding emit
emit-eq-false out hit (done (v, any)) w h = (v, ground arith, ground arith, ground arith)
emit-eq-false out hit panic w h = absurd (ground arith)
emit-eq-false out hit timeout w h = absurd (ground arith)

resume-eq-false :
    (c : ℕ) (s : Bytes) (go : Bytes → Outcome Written) (r : Outcome Hit) (out : Bytes)
    → (r >>= resume go c s) ≡ done (out, false)
    → (v : Bytes) × (go s ≡ done (v, false)) × (out ≡ c ∷ v)
unfolding resume
resume-eq-false c s go (done none) out h =
    let (v, e, w, _) = emit-eq-false (c ∷ []) false (go s) out h in (v, e, w)
resume-eq-false c s go (done (some (o, rest))) out h =
    let (v, e, w, f) = emit-eq-false o true (go rest) out h in absurd (ground arith)
resume-eq-false c s go panic out h = absurd (ground arith)
resume-eq-false c s go timeout out h = absurd (ground arith)

-- Without a rewrite the loop has written what it read.
pub scan_unchanged :
    (fuel : ℕ) (rewrite : Matcher) (s out : Bytes)
    → scan fuel rewrite s ≡ done (out, false)
    → out ≡ s
unfolding scan
scan_unchanged fuel rewrite [] out h = ground arith
scan_unchanged zero rewrite (c ∷ s) out h = absurd (ground arith)
scan_unchanged (suc fuel) rewrite (c ∷ s) out h =
    let (v, e, w) = resume-eq-false c s (scan fuel rewrite) (rewrite (c ∷ s)) out h in
    w ∙ ap (◌∷◌ c) (scan_unchanged fuel rewrite s v e)

-- The loop over `s` returns `w`, once it has a round for each byte.
abbrev pub Runs : Matcher → Bytes → Written → Type 0
Runs rewrite s w = (fuel : ℕ) → length s ≤ fuel → scan fuel rewrite s ≡ done w

module _ (rewrite : Matcher) where
  pub Runs-nil : Runs rewrite [] ([], false)
  unfolding scan
  Runs-nil fuel h = refl

  pub Runs-copy :
      (c : ℕ) (s out : Bytes) (any : Bool)
      → rewrite (c ∷ s) ≡ done none
      → Runs rewrite s (out, any)
      → Runs rewrite (c ∷ s) (c ∷ out, any)
  unfolding scan
  Runs-copy c s out any e r zero h = absurd (omega arith)
  Runs-copy c s out any e r (suc fuel) h = rw (e, r fuel (omega arith), resume)

  pub Runs-rewrite :
      (c : ℕ) (s o rest out : Bytes) (any : Bool)
      → rewrite (c ∷ s) ≡ done (some (o, rest))
      → length rest ≤ length s
      → Runs rewrite rest (out, any)
      → Runs rewrite (c ∷ s) (o ++ out, true)
  unfolding scan
  Runs-rewrite c s o rest out any e l r zero h = absurd (omega arith)
  Runs-rewrite c s o rest out any e l r (suc fuel) h = rw (e, r fuel (omega arith), resume)
