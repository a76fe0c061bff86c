-- ===== src/Bridge/Update.antt =====
-- Every message leaves a valid model, and a refresh keeps the selection.
use ccbox.Common.{
  ℕ, zero, suc, ◌+◌, ◌-◌, ◌<◌, ◌≡◌, ◌≢◌, refl, sym, ap, ◌∙◌, ◌⊎◌, inl, inr, Bool, true, false,
  Option, none, some, List, [], ◌∷◌, arith, length, get_elem?, ltb, ltb→lt, if◌then◌else◌, Bytes,
  equal, equal_iff, Bool-cases, done,
}
use ccbox.Bridge.Defs.{
  FlatItem, BridgeModel, ContainerInfo, Msg, Key, quit, up, down, new, stop, voice, paste, enter,
  other, key_msg, window_size_msg, refresh_msg, tick_msg, container_stopped_msg, new_session_msg,
  status_msg, other_msg, flat_item_id, build_flat_items, item_at, select, find_id, restore, refresh,
  is_empty, parse_key, update_key, update, stop_container, open_terminal_to_container, settle,
  owner, status_time, new_bridge_model,
}
use Prim.Native.Nat.{min}
use ccbox.Bridge.Items.{
  get_elem?-some, IsValid, SafeModel, Safe, settle-Safe, settle-SafeModel, select-SafeModel,
  find_id-some, find_id_listed,
}

get_elem?-lt {ℓ} :
    {A : Type ℓ} (xs : List A) (i : ℕ) (x : A) → get_elem? xs i ≡ some x → i < length xs
get_elem?-lt [] i x h = absurd (ground arith)
get_elem?-lt (y ∷ ys) zero x h = omega arith
get_elem?-lt (y ∷ ys) (suc i) x h = omega (arith, get_elem?-lt ys i x h)

is_empty-true : (items : List FlatItem) → is_empty items ≡ true → items ≡ []
unfolding is_empty
is_empty-true [] h = refl
is_empty-true (x ∷ xs) h = absurd (ground arith)

is_empty-false : (items : List FlatItem) → is_empty items ≡ false → 0 < length items
unfolding is_empty
is_empty-false [] h = absurd (ground arith)
is_empty-false (x ∷ xs) h = omega arith

clamp_lt : (i n : ℕ) → 0 < n → min i (n - 1) < n
clamp_lt i n h = omega arith

clamp_zero : (items : List FlatItem) (i : ℕ) → items ≡ [] → min i (length items - 1) ≡ 0
clamp_zero items i h = rw h (omega arith)

restore-SafeModel :
    (m : BridgeModel) (key : Bytes)
    → m.flat_items ≡ build_flat_items m.containers
    → m.selected_id ≡ key
    → (r : Option ℕ) → find_id key 0 m.flat_items ≡ r
    → SafeModel (restore m r)
unfolding restore
restore-SafeModel m key built sel (some i) h =
    let (j, item, p, g, q) = find_id-some key 0 m.flat_items i h in
    let e : get_elem? m.flat_items i ≡ some item =
      ap (get_elem? m.flat_items) (omega (arith, p)) ∙ g in
    record {
      built = built;
      in_range = inr (get_elem?-lt m.flat_items i item e);
      selects = inr (inr (item, e, q ∙ sym sel));
    }
restore-SafeModel m key built sel none h = elim (Bool-cases (is_empty m.flat_items)) [
  | inl e ↦
      rw (e, SafeModel)
        record {
          built = built;
          in_range = inl (clamp_zero m.flat_items m.current_index (is_empty-true m.flat_items e));
          selects = inr (inl (is_empty-true m.flat_items e));
        }
  | inr e ↦
      rw (e, SafeModel)
        (select-SafeModel
          (record m { current_index = min m.current_index (length m.flat_items - 1) }) built
          (clamp_lt m.current_index (length m.flat_items) (is_empty-false m.flat_items e)))
]

last_in_range : (n : ℕ) → (n - 1 ≡ 0) ⊎ (n - 1 < n)
last_in_range zero = inl refl
last_in_range (suc n) = inr (omega arith)

refresh-SafeModel : (m : BridgeModel) (cs : List ContainerInfo) → SafeModel (refresh m cs)
unfolding refresh
refresh-SafeModel m cs = elim (Bool-cases (equal m.selected_id [])) [
  | inr e ↦
      rw (e, SafeModel)
        (restore-SafeModel (record m { containers = cs; flat_items = build_flat_items cs })
          m.selected_id refl refl (find_id m.selected_id 0 (build_flat_items cs)) refl)
  | inl e ↦ elim (Bool-cases (ltb m.current_index (length (build_flat_items cs)))) [
    | inl b ↦
        rw (e, b, SafeModel)
          record {
            built = refl;
            in_range = inr (ltb→lt m.current_index (length (build_flat_items cs)) b);
            selects = inl ((equal_iff _ []).0 e);
          }
    | inr b ↦
        rw (e, b, SafeModel)
          record {
            built = refl;
            in_range = last_in_range (length (build_flat_items cs));
            selects = inl ((equal_iff _ []).0 e);
          }
  ]
]

previous_lt : (i n : ℕ) → ltb 0 i ≡ true → (i ≡ 0) ⊎ (i < n) → i - 1 < n
previous_lt i n e (inl h) = absurd (omega (arith, ltb→lt 0 i e))
previous_lt i n e (inr h) = omega arith

stop_item-Safe :
    (now : ℕ) (m : BridgeModel)
    → IsValid m
    → (c : Option ContainerInfo)
    → Safe (elim c [ none ↦ settle now m | some c ↦ done (m, stop_container c.id c.name) ])
stop_item-Safe now m v none = settle-Safe now m v
stop_item-Safe now m v (some c) = v

enter_item-Safe :
    (now : ℕ) (m : BridgeModel)
    → IsValid m
    → (b : Bool) (c : Option ContainerInfo)
    → Safe (elim c [
      | none ↦ settle now m
      | some c ↦ if b then done (m, open_terminal_to_container c.name) else settle now m
    ])
enter_item-Safe now m v b none = settle-Safe now m v
enter_item-Safe now m v true (some c) = v
enter_item-Safe now m v false (some c) = settle-Safe now m v

update_key-Safe : (k : Key) (now : ℕ) (m : BridgeModel) → IsValid m → Safe (update_key k now m)
unfolding update_key item_at
update_key-Safe quit now m v = record {
  built = v.built;
  in_range = v.in_range;
  selects = v.selects;
}
update_key-Safe up now m v = elim (Bool-cases (ltb 0 m.current_index)) [
  | inl e ↦
      rw (e, Safe)
        (settle-SafeModel now (select (record m { current_index = m.current_index - 1 })) (
          select-SafeModel (record m { current_index = m.current_index - 1 }) v.built
            (previous_lt m.current_index (length m.flat_items) e v.in_range)))
  | inr e ↦ rw (e, Safe) (settle-Safe now m v)
]
update_key-Safe down now m v = elim (Bool-cases (ltb (m.current_index + 1) (length m.flat_items))) [
  | inl e ↦
      rw (e, Safe)
        (settle-SafeModel now (select (record m { current_index = m.current_index + 1 })) (
          select-SafeModel (record m { current_index = m.current_index + 1 }) v.built
            (ltb→lt (m.current_index + 1) (length m.flat_items) e)))
  | inr e ↦ rw (e, Safe) (settle-Safe now m v)
]
update_key-Safe new now m v = v
update_key-Safe stop now m v = elim (Bool-cases (ltb m.current_index (length m.flat_items))) [
  | inr e ↦ rw (e, Safe) (settle-Safe now m v)
  | inl e ↦
      let (item, g) =
        get_elem?-some m.flat_items m.current_index
          (ltb→lt m.current_index (length m.flat_items) e) in
      rw (e, g, item_at, Safe) (stop_item-Safe now m v (owner item))
]
update_key-Safe voice now m v = record {
  built = v.built;
  in_range = v.in_range;
  selects = v.selects;
}
update_key-Safe paste now m v = record {
  built = v.built;
  in_range = v.in_range;
  selects = v.selects;
}
update_key-Safe enter now m v = elim (Bool-cases (ltb m.current_index (length m.flat_items))) [
  | inr e ↦ rw (e, Safe) (settle-Safe now m v)
  | inl e ↦
      let (item, g) =
        get_elem?-some m.flat_items m.current_index
          (ltb→lt m.current_index (length m.flat_items) e) in
      rw (e, g, item_at, Safe) (enter_item-Safe now m v item.is_container item.container)
]
update_key-Safe other now m v = settle-Safe now m v

-- Every message that reaches a valid model ends without a panic in a valid model.
pub update-Safe : (now : ℕ) (m : BridgeModel) (msg : Msg) → IsValid m → Safe (update now m msg)
unfolding update
update-Safe now m (key_msg s) v = update_key-Safe (parse_key s) now m v
update-Safe now m (window_size_msg w h) v =
    settle-Safe now (record m { width = w; height = h })
      record { built = v.built; in_range = v.in_range; selects = v.selects }
update-Safe now m (refresh_msg cs) v = settle-SafeModel now (refresh m cs) (refresh-SafeModel m cs)
update-Safe now m tick_msg v = v
update-Safe now m (container_stopped_msg name) v = record {
  built = v.built;
  in_range = v.in_range;
  selects = v.selects;
}
update-Safe now m new_session_msg v = v
update-Safe now m other_msg v = settle-Safe now m v
update-Safe now m (status_msg message) v =
    settle-Safe now
      (record m {
        status_message = message;
        status_expiry = some (now + status_time);
        is_recording = false;
        is_pasting = false;
      })
      record { built = v.built; in_range = v.in_range; selects = v.selects }

pub new_bridge_model-IsValid :
    (path : Bytes) (args : List Bytes) → IsValid (new_bridge_model path args)
unfolding new_bridge_model build_flat_items
new_bridge_model-IsValid path args = record {
  built = refl;
  in_range = inl refl;
  selects = inl refl;
}

equal_other : (s t : Bytes) → s ≢ t → equal s t ≡ false
equal_other s t n = elim (Bool-cases (equal s t)) [
  | inl e ↦ absurd (n ((equal_iff s t).0 e))
  | inr e ↦ e
]

-- If an item is selected and some item of the new list has its id, a refresh keeps the selection and
-- puts the cursor on an item of that id.
pub refresh-selected :
    (m : BridgeModel) (cs : List ContainerInfo) (j : ℕ) (listed : FlatItem)
    → m.selected_id ≢ []
    → get_elem? (build_flat_items cs) j ≡ some listed
    → flat_item_id listed ≡ m.selected_id
    → (m1 : BridgeModel) × (item : FlatItem) × (refresh m cs ≡ done m1)
      × (m1.selected_id ≡ m.selected_id)
      × (get_elem? m1.flat_items m1.current_index ≡ some item)
      × (flat_item_id item ≡ m.selected_id)
unfolding refresh restore
refresh-selected m cs j listed s at_j same =
    let (i, f) = find_id_listed m.selected_id 0 (build_flat_items cs) j listed at_j same in
    let (n, item, p, g, q) = find_id-some m.selected_id 0 (build_flat_items cs) i f in
    (
      record m { containers = cs; flat_items = build_flat_items cs; current_index = i },
      item,
      rw (equal_other m.selected_id [] s, f) refl,
      refl,
      ap (get_elem? (build_flat_items cs)) (omega (arith, p)) ∙ g,
      q,
    )
