-- ===== src/Bridge/Items.antt =====
-- Positions in the flat list, and the invariant of the interface.
use ccbox.Common.{
  ℕ, zero, suc, ◌+◌, ◌<◌, ◌≡◌, refl, ap, ◌∙◌, ◌⊎◌, inl, inr, false, none, some, List, [], ◌∷◌,
  arith, length, get_elem?, Bytes, equal, equal_iff, Bool-cases, Outcome, done, panic, timeout,
  ◌>>=◌,
}
use ccbox.Bridge.Defs.{
  FlatItem, BridgeModel, Cmd, flat_item_id, build_flat_items, item_at, select, find_id,
  clear_expired, settle,
}

pub get_elem?-some {ℓ} :
    {A : Type ℓ} (xs : List A) (i : ℕ) → i < length xs → (x : A) × (get_elem? xs i ≡ some x)
get_elem?-some [] i h = elim h [ ]
get_elem?-some (x ∷ xs) zero h = (x, refl)
get_elem?-some (x ∷ xs) (suc i) h = get_elem?-some xs i (omega arith)

-- The item under the cursor is the selected one, if anything is selected and there are items.
abbrev pub Selects : BridgeModel → Type 0
Selects m =
    (m.selected_id ≡ [])
    ⊎ (m.flat_items ≡ [])
    ⊎ ((item : FlatItem) × (get_elem? m.flat_items m.current_index ≡ some item)
        × (flat_item_id item ≡ m.selected_id))

pub record IsValid (m : BridgeModel) : Type 0 where
  pub built : m.flat_items ≡ build_flat_items m.containers
  pub in_range : (m.current_index ≡ 0) ⊎ (m.current_index < length m.flat_items)
  pub selects : Selects m

-- A step that ends with a valid model.
abbrev pub SafeModel : Outcome BridgeModel → Type 0
SafeModel (done m) = IsValid m
SafeModel panic = ⊥
SafeModel timeout = ⊥

-- A step that ends, without a panic, with a valid model and a command.
abbrev pub Safe : Outcome (BridgeModel × Cmd) → Type 0
Safe (done (m, cmd)) = IsValid m
Safe panic = ⊥
Safe timeout = ⊥

clear_expired-IsValid : (now : ℕ) (m : BridgeModel) → IsValid m → IsValid (clear_expired now m)
unfolding clear_expired
clear_expired-IsValid now m v = record {
  built = v.built;
  in_range = v.in_range;
  selects = v.selects;
}

pub settle-Safe : (now : ℕ) (m : BridgeModel) → IsValid m → Safe (settle now m)
settle-Safe now m v = clear_expired-IsValid now m v

pub settle-SafeModel : (now : ℕ) (r : Outcome BridgeModel) → SafeModel r → Safe (r >>= settle now)
settle-SafeModel now (done m) v = settle-Safe now m v
settle-SafeModel now panic v = v
settle-SafeModel now timeout v = v

-- Selecting the item under a cursor that is in range.
pub select-SafeModel :
    (m : BridgeModel)
    → m.flat_items ≡ build_flat_items m.containers
    → m.current_index < length m.flat_items
    → SafeModel (select m)
unfolding select item_at
select-SafeModel m built h =
    let (item, e) = get_elem?-some m.flat_items m.current_index h in
    rw (e, SafeModel)
      (record { built = built; in_range = inr h; selects = inr (inr (item, e, refl)) })

-- The search answers the index of an item with the id.
pub find_id-some :
    (key : Bytes) (k : ℕ) (items : List FlatItem) (i : ℕ)
    → find_id key k items ≡ some i
    → (j : ℕ) × (item : FlatItem) × (i ≡ k + j)
      × (get_elem? items j ≡ some item)
      × (flat_item_id item ≡ key)
unfolding find_id
find_id-some key k [] i h = absurd (ground arith)
find_id-some key k (item ∷ items) i h = elim (Bool-cases (equal (flat_item_id item) key)) [
  | inl e ↦ (0, item, ground arith, refl, (equal_iff _ key).0 e)
  | inr e ↦
      let (j, x, p, g, q) = find_id-some key (k + 1) items i (rw (e, find_id) at h) in
      (suc j, x, omega arith, g, q)
]

-- An item of a list whose first item has another id stands behind it.
behind_other :
    {key : Bytes} (x : FlatItem) (items : List FlatItem) (j : ℕ) (item : FlatItem)
    → get_elem? (x ∷ items) j ≡ some item
    → flat_item_id item ≡ key
    → equal (flat_item_id x) key ≡ false
    → (i : ℕ) × (get_elem? items i ≡ some item)
behind_other x items zero item g q e =
    let same : x ≡ item = ap (λ o. elim o [ none ↦ x | some y ↦ y ]) g in
    absurd (ground (arith, (equal_iff (flat_item_id x) _).1 (ap flat_item_id same ∙ q), e))
behind_other x items (suc i) item g q e = (i, g)

-- The search answers an index where an item of the list has the id.
pub find_id_listed :
    (key : Bytes) (k : ℕ) (items : List FlatItem) (j : ℕ) (item : FlatItem)
    → get_elem? items j ≡ some item
    → flat_item_id item ≡ key
    → (i : ℕ) × (find_id key k items ≡ some i)
unfolding find_id
find_id_listed key k [] j item g q = absurd (ground (arith, g))
find_id_listed key k (x ∷ items) j item g q = elim (Bool-cases (equal (flat_item_id x) key)) [
  | inl e ↦ (k, rw e refl)
  | inr e ↦
      let (i, h) = behind_other x items j item g q e in
      let (n, f) = find_id_listed key (k + 1) items i item h q in (n, rw e f)
]
