-- ===== src/Bridge/Examples.antt =====
-- The theorems on the interface at a list of one container with one session.
use ccbox.Common.{
  ◌≡◌, refl, inl, inr, true, false, some, none, [], ◌∷◌, codes, equal, get_elem?, done, arith,
}
use ccbox.Bridge.Defs.{
  ContainerInfo, FlatItem, BridgeModel, refresh_msg, new_bridge_model, build_flat_items,
  flat_item_id, find_id, refresh, update, session_items,
}
use ccbox.Bridge.Items.{IsValid, Safe}
use ccbox.Bridge.Update.{update-Safe, refresh-selected, new_bridge_model-IsValid}

abbrev one : ContainerInfo
one = record {
  id = codes "1";
  name = codes "ccbox_p";
  project = codes "p";
  stack = codes "go";
  status = codes "Up";
  healthy = true;
  sessions = record { id = codes "s"; project = codes "p"; created_at = 0 } ∷ [];
}

-- The session is selected, behind an empty list.
abbrev selected : BridgeModel
selected = record {
  containers = [];
  flat_items = [];
  current_index = 0;
  selected_id = codes "s:1:s";
  status_message = [];
  status_expiry = none;
  width = 0;
  height = 0;
  quitting = false;
  is_recording = false;
  is_pasting = false;
  project_path = codes "/p";
  ccbox_args = [];
}

selected-IsValid : IsValid selected
unfolding build_flat_items
selected-IsValid = record { built = refl; in_range = inl refl; selects = inr (inl refl) }

update-Safe_example : Safe (update 5 selected (refresh_msg (one ∷ [])))
update-Safe_example = update-Safe 5 selected (refresh_msg (one ∷ [])) selected-IsValid

abbrev session_item : FlatItem
session_item = record {
  is_container = false;
  container = none;
  session = some (record { id = codes "s"; project = codes "p"; created_at = 0 });
  parent_container = some one;
}

refresh-selected_example :
    (m1 : BridgeModel) × (item : FlatItem) × (refresh selected (one ∷ []) ≡ done m1)
    × (m1.selected_id ≡ codes "s:1:s")
    × (get_elem? m1.flat_items m1.current_index ≡ some item)
    × (flat_item_id item ≡ codes "s:1:s")
unfolding equal find_id build_flat_items session_items flat_item_id
refresh-selected_example =
    refresh-selected selected (one ∷ []) 1 session_item (λ e. ground (arith, e)) refl refl

new_bridge_model-IsValid_example : IsValid (new_bridge_model (codes "/p") [])
new_bridge_model-IsValid_example = new_bridge_model-IsValid (codes "/p") []
