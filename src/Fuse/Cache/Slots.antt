-- ===== src/Fuse/Cache/Slots.antt =====
-- Arrays of slots that hold an entry or are empty (`nil`).
use ccbox.Common.{
  ℕ, zero, suc, ◌+◌, ◌<◌, ◌≡◌, refl, ap, ◌⊎◌, inl, inr, Bool, true, false, ◌||◌, Option, none, some,
  List, [], ◌∷◌, if◌then◌else◌, arith, length, get_elem?, set, replicate, Bool-cases,
}

module _ {E : Type 0} where
  -- `for i := range slots { if slots[i] != nil && test(slots[i]) { return true } }`
  unfoldable pub any_slot : (E → Bool) → List (Option E) → Bool
  any_slot test [] = false
  any_slot test (none ∷ ss) = any_slot test ss
  any_slot test (some e ∷ ss) = test e || any_slot test ss

  -- `for i := range slots { if slots[i] != nil && test(slots[i]) { slots[i] = nil } }`
  unfoldable pub clear : (E → Bool) → List (Option E) → List (Option E)
  clear test [] = []
  clear test (none ∷ ss) = none ∷ clear test ss
  clear test (some e ∷ ss) = (if test e then none else some e) ∷ clear test ss

  -- The index of the first empty slot, counted from `i`.
  unfoldable pub first_empty : ℕ → List (Option E) → Option ℕ
  first_empty i [] = none
  first_empty i (none ∷ ss) = some i
  first_empty i (some e ∷ ss) = first_empty (i + 1) ss

  -- Every entry has the property.
  abbrev pub Holds {κ} : (E → Type κ) → List (Option E) → Type κ
  Holds P [] = Unit
  Holds P (none ∷ ss) = Holds P ss
  Holds P (some e ∷ ss) = P e × Holds P ss

  -- Every slot is taken.
  abbrev pub IsFull : List (Option E) → Type 0
  IsFull [] = Unit
  IsFull (none ∷ ss) = ⊥
  IsFull (some e ∷ ss) = IsFull ss

  pub length-clear : (test : E → Bool) (ss : List (Option E)) → length (clear test ss) ≡ length ss
  unfolding clear
  length-clear test [] = refl
  length-clear test (none ∷ ss) = ap suc (length-clear test ss)
  length-clear test (some e ∷ ss) = ap suc (length-clear test ss)

  pub replicate-Holds {κ} : (P : E → Type κ) (n : ℕ) → Holds P (replicate n none)
  replicate-Holds P zero = tt
  replicate-Holds P (suc n) = replicate-Holds P n

  pub Holds-set {κ} :
      (P : E → Type κ) (ss : List (Option E)) (i : ℕ) (e : E)
      → P e
      → Holds P ss
      → Holds P (set ss i (some e))
  Holds-set P [] i e p h = tt
  Holds-set P (none ∷ ss) zero e p h = (p, h)
  Holds-set P (some x ∷ ss) zero e p h = (p, h.1)
  Holds-set P (none ∷ ss) (suc i) e p h = Holds-set P ss i e p h
  Holds-set P (some x ∷ ss) (suc i) e p h = (h.0, Holds-set P ss i e p h.1)

  pub Holds-clear {κ} :
      (P : E → Type κ) (test : E → Bool) (ss : List (Option E))
      → Holds P ss
      → Holds P (clear test ss)
  unfolding clear
  Holds-clear P test [] h = tt
  Holds-clear P test (none ∷ ss) h = Holds-clear P test ss h
  Holds-clear P test (some e ∷ ss) h = elim (Bool-cases (test e)) [
    | inl t ↦ rw t (Holds-clear P test ss h.1)
    | inr f ↦ rw f (h.0, Holds-clear P test ss h.1)
  ]

  pub Holds-clear_map {κ μ} :
      (P : E → Type κ) (Q : E → Type μ) (test : E → Bool) (ss : List (Option E))
      → ((e : E) → test e ≡ false → P e → Q e)
      → Holds P ss
      → Holds Q (clear test ss)
  unfolding clear
  Holds-clear_map P Q test [] f h = tt
  Holds-clear_map P Q test (none ∷ ss) f h = Holds-clear_map P Q test ss f h
  Holds-clear_map P Q test (some e ∷ ss) f h = elim (Bool-cases (test e)) [
    | inl t ↦ rw t (Holds-clear_map P Q test ss f h.1)
    | inr n ↦ rw n (f e n h.0, Holds-clear_map P Q test ss f h.1)
  ]

  -- What is left fails the test.
  pub clear-Holds :
      (test : E → Bool) (ss : List (Option E)) → Holds (λ e. test e ≡ false) (clear test ss)
  unfolding clear
  clear-Holds test [] = tt
  clear-Holds test (none ∷ ss) = clear-Holds test ss
  clear-Holds test (some e ∷ ss) = elim (Bool-cases (test e)) [
    | inl t ↦ rw t (clear-Holds test ss)
    | inr f ↦ rw f (f, clear-Holds test ss)
  ]

  pub Holds-map {κ μ} :
      (P : E → Type κ) (Q : E → Type μ) (ss : List (Option E))
      → ((e : E) → P e → Q e)
      → Holds P ss
      → Holds Q ss
  Holds-map P Q [] f h = tt
  Holds-map P Q (none ∷ ss) f h = Holds-map P Q ss f h
  Holds-map P Q (some e ∷ ss) f h = (f e h.0, Holds-map P Q ss f h.1)

  pub any_slot-set :
      (test : E → Bool) (ss : List (Option E)) (i : ℕ) (e : E)
      → i < length ss
      → test e ≡ true
      → any_slot test (set ss i (some e)) ≡ true
  unfolding any_slot
  any_slot-set test [] i e h t = elim h [ ]
  any_slot-set test (x ∷ ss) zero e h t = ground arith
  any_slot-set test (none ∷ ss) (suc i) e h t = any_slot-set test ss i e (omega arith) t
  any_slot-set test (some x ∷ ss) (suc i) e h t =
      ground (arith, any_slot-set test ss i e (omega arith) t)

  -- An entry that stands in a slot is found.
  pub any_slot-get_elem? :
      (test : E → Bool) (ss : List (Option E)) (i : ℕ) (e : E)
      → get_elem? ss i ≡ some (some e)
      → test e ≡ true
      → any_slot test ss ≡ true
  unfolding any_slot
  any_slot-get_elem? test [] i e h t = absurd (ground arith)
  any_slot-get_elem? test (x ∷ ss) zero e h t = ground arith
  any_slot-get_elem? test (none ∷ ss) (suc i) e h t = any_slot-get_elem? test ss i e h t
  any_slot-get_elem? test (some x ∷ ss) (suc i) e h t =
      ground (arith, any_slot-get_elem? test ss i e h t)

  pub any_slot-Holds :
      (test : E → Bool) (ss : List (Option E))
      → Holds (λ e. test e ≡ false) ss
      → any_slot test ss ≡ false
  unfolding any_slot
  any_slot-Holds test [] h = refl
  any_slot-Holds test (none ∷ ss) h = any_slot-Holds test ss h
  any_slot-Holds test (some e ∷ ss) h = rw h.0 (any_slot-Holds test ss h.1)

  pub Holds-hit {κ} :
      (P : E → Type κ) (test : E → Bool) (ss : List (Option E))
      → Holds P ss
      → any_slot test ss ≡ true
      → (e : E) × (test e ≡ true) × P e
  unfolding any_slot
  Holds-hit P test [] h k = absurd (ground (arith, k))
  Holds-hit P test (none ∷ ss) h k = Holds-hit P test ss h k
  Holds-hit P test (some e ∷ ss) h k = elim (Bool-cases (test e)) [
    | inl t ↦ (e, t, h.0)
    | inr f ↦ Holds-hit P test ss h.1 (ground (arith, f, k))
  ]

  -- The tests of entries that `clear` leaves alone answer as before.
  pub any_slot-clear :
      (test gone : E → Bool) (ss : List (Option E))
      → ((e : E) → gone e ≡ true → test e ≡ false)
      → any_slot test (clear gone ss) ≡ any_slot test ss
  unfolding any_slot clear
  any_slot-clear test gone [] h = refl
  any_slot-clear test gone (none ∷ ss) h = any_slot-clear test gone ss h
  any_slot-clear test gone (some e ∷ ss) h = elim (Bool-cases (gone e)) [
    | inl t ↦ rw (t, h e t) (any_slot-clear test gone ss h)
    | inr f ↦ rw f (ap (◌||◌ (test e)) (any_slot-clear test gone ss h))
  ]

  -- The first empty slot lies in the array and is empty; without one, every slot is taken.
  pub first_empty-get_elem? :
      (k : ℕ) (ss : List (Option E))
      → ((i : ℕ) × (first_empty k ss ≡ some (k + i))
          × (get_elem? ss i ≡ some none)
          × (i < length ss))
        ⊎ ((first_empty k ss ≡ none) × IsFull ss)
  unfolding first_empty
  first_empty-get_elem? k [] = inr (refl, tt)
  first_empty-get_elem? k (none ∷ ss) = inl (0, ground arith, refl, omega arith)
  first_empty-get_elem? k (some e ∷ ss) = elim (first_empty-get_elem? (k + 1) ss) [
    | inl (i, f, g, l) ↦ inl (suc i, ground arith, g, omega arith)
    | inr (f, full) ↦ inr (f, full)
  ]

  pub Holds-of_any_slot :
      (test : E → Bool) (ss : List (Option E))
      → any_slot test ss ≡ false
      → Holds (λ e. test e ≡ false) ss
  unfolding any_slot
  Holds-of_any_slot test [] h = tt
  Holds-of_any_slot test (none ∷ ss) h = Holds-of_any_slot test ss h
  Holds-of_any_slot test (some e ∷ ss) h = (ground arith, Holds-of_any_slot test ss (ground arith))

pub get_elem?-lt {κ} :
    {A : Type κ} (xs : List A) (i : ℕ) (x : A) → get_elem? xs i ≡ some x → i < length xs
get_elem?-lt [] i x h = absurd (ground arith)
get_elem?-lt (y ∷ xs) zero x h = omega arith
get_elem?-lt (y ∷ xs) (suc i) x h = omega (arith, get_elem?-lt xs i x h)
