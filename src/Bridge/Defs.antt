-- ===== src/Bridge/Defs.antt =====
-- The model of the interface and its messages.
use ccbox.Common.{
  ℕ, ◌+◌, ◌-◌, ◌*◌, Bool, true, false, not, ◌||◌, Option, none, some, List, [], ◌∷◌, ◌++◌, ltb,
  if◌then◌else◌, length, get_elem?, Bytes, codes, equal, Outcome, done, panic, ◌>>=◌,
}
use Prim.Native.Nat.{min}

pub record Session : Type 0 where
  pub id : Bytes
  pub project : Bytes
  pub created_at : ℕ

pub record ContainerInfo : Type 0 where
  pub id : Bytes
  pub name : Bytes
  pub project : Bytes
  pub stack : Bytes
  pub status : Bytes
  pub healthy : Bool
  pub sessions : List Session

-- The pointers are `none` for `nil`; nothing is written through them.
pub record FlatItem : Type 0 where
  pub is_container : Bool
  pub container : Option ContainerInfo
  pub session : Option Session
  pub parent_container : Option ContainerInfo

-- `status_expiry` is `none` for the zero time. `current_index` starts at 0 and is only counted down
-- where it is positive.
pub record BridgeModel : Type 0 where
  pub containers : List ContainerInfo
  pub flat_items : List FlatItem
  pub current_index : ℕ
  pub selected_id : Bytes
  pub status_message : Bytes
  pub status_expiry : Option ℕ
  pub width : ℕ
  pub height : ℕ
  pub quitting : Bool
  pub is_recording : Bool
  pub is_pasting : Bool
  pub project_path : Bytes
  pub ccbox_args : List Bytes

unfoldable pub new_bridge_model : Bytes → List Bytes → BridgeModel
new_bridge_model path args = record {
  containers = [];
  flat_items = [];
  current_index = 0;
  selected_id = [];
  status_message = [];
  status_expiry = none;
  width = 0;
  height = 0;
  quitting = false;
  is_recording = false;
  is_pasting = false;
  project_path = path;
  ccbox_args = args;
}

-- The keys that the switch names.
pub data Key : Type 0 where
  quit up down new stop voice paste enter other : Key

unfoldable pub parse_key : Bytes → Key
unfolding equal
parse_key s =
    if equal s (codes "q") || equal s (codes "ctrl+c")
    then quit
    else if equal s (codes "up") || equal s (codes "k")
    then up
    else if equal s (codes "down") || equal s (codes "j")
    then down
    else if equal s (codes "n")
    then new
    else if equal s (codes "s")
    then stop
    else if equal s (codes "v")
    then voice
    else if equal s (codes "p")
    then paste
    else if equal s (codes "enter")
    then enter
    else other

-- `other_msg` is a message that the switch does not name.
pub data Msg : Type 0 where
  key_msg : Bytes → Msg
  window_size_msg : ℕ → ℕ → Msg
  refresh_msg : List ContainerInfo → Msg
  tick_msg : Msg
  container_stopped_msg : Bytes → Msg
  new_session_msg : Msg
  status_msg : Bytes → Msg
  other_msg : Msg

-- `nil` is `no_cmd`.
pub data Cmd : Type 0 where
  no_cmd quit_cmd refresh_data refresh_and_tick : Cmd
  launch_new_container : Bytes → List Bytes → Cmd
  stop_container : Bytes → Bytes → Cmd
  send_voice send_paste : List ContainerInfo → Cmd
  open_terminal_to_container : Bytes → Cmd

pub session_item_id : Option Session → Option ContainerInfo → Bytes
session_item_id (some s) (some p) = codes "s:" ++ (p.id ++ (b':' ∷ s.id))
session_item_id (some s) none = []
session_item_id none p = []

unfoldable pub flat_item_id : FlatItem → Bytes
unfolding session_item_id
flat_item_id item = elim item.container [
  | some c ↦
      if item.is_container
      then codes "c:" ++ c.id
      else session_item_id item.session item.parent_container
  | none ↦ session_item_id item.session item.parent_container
]

unfoldable pub session_items : ContainerInfo → List Session → List FlatItem
session_items c [] = []
session_items c (s ∷ ss) =
    record { is_container = false; container = none; session = some s; parent_container = some c }
    ∷ session_items c ss

unfoldable pub build_flat_items : List ContainerInfo → List FlatItem
unfolding session_items
build_flat_items [] = []
build_flat_items (c ∷ cs) =
    record { is_container = true; container = some c; session = none; parent_container = none }
    ∷ (session_items c c.sessions ++ build_flat_items cs)

-- `m.flatItems[i]`
unfoldable pub item_at : List FlatItem → ℕ → Outcome FlatItem
item_at items i = elim (get_elem? items i) [ none ↦ panic | some item ↦ done item ]

-- `m.selectedID = flatItemID(m.flatItems[m.currentIndex])`
unfoldable pub select : BridgeModel → Outcome BridgeModel
unfolding item_at flat_item_id
select m = do
  item ← item_at m.flat_items m.current_index
  done (record m { selected_id = flat_item_id item })

-- The index of the first item with the id, counted from `i`.
unfoldable pub find_id : Bytes → ℕ → List FlatItem → Option ℕ
unfolding equal flat_item_id
find_id key i [] = none
find_id key i (item ∷ items) =
    if equal (flat_item_id item) key then some i else find_id key (i + 1) items

unfoldable pub is_empty : List FlatItem → Bool
is_empty [] = true
is_empty (x ∷ xs) = false

-- The case `refreshMsg`, with the search's answer.
unfoldable pub restore : BridgeModel → Option ℕ → Outcome BridgeModel
restore m (some i) = done (record m { current_index = i })
restore m none =
    let clamped = record m { current_index = min m.current_index (length m.flat_items - 1) } in
    if is_empty m.flat_items then done clamped else select clamped

unfoldable pub refresh : BridgeModel → List ContainerInfo → Outcome BridgeModel
refresh m containers =
    let items = build_flat_items containers in
    let m1 = record m { containers = containers; flat_items = items } in
    if not (equal m.selected_id [])
    then restore m1 (find_id m.selected_id 0 items)
    else if ltb m.current_index (length items)
    then done m1
    else done (record m1 { current_index = length items - 1 })

-- `m.statusExpiry`, three seconds ahead.
abbrev pub status_time : ℕ
status_time = 3 * 1_000_000_000

-- The end of `Update`: an expired status is cleared.
unfoldable pub is_expired : ℕ → Option ℕ → Bool
is_expired now none = false
is_expired now (some expiry) = ltb expiry now

unfoldable pub clear_expired : ℕ → BridgeModel → BridgeModel
clear_expired now m = record m {
  status_message = if is_expired now m.status_expiry then [] else m.status_message;
}

abbrev pub settle : ℕ → BridgeModel → Outcome (BridgeModel × Cmd)
settle now m = done (clear_expired now m, no_cmd)

-- The container that an item stands for or belongs to.
unfoldable pub owner : FlatItem → Option ContainerInfo
owner item = if item.is_container then item.container else item.parent_container

unfoldable pub update_key : Key → ℕ → BridgeModel → Outcome (BridgeModel × Cmd)
update_key quit now m = done (record m { quitting = true }, quit_cmd)
update_key up now m =
    if ltb 0 m.current_index
    then (do m1 ← select (record m { current_index = m.current_index - 1 }); settle now m1)
    else settle now m
update_key down now m =
    if ltb (m.current_index + 1) (length m.flat_items)
    then (do m1 ← select (record m { current_index = m.current_index + 1 }); settle now m1)
    else settle now m
update_key new now m = done (m, launch_new_container m.project_path m.ccbox_args)
update_key stop now m =
    if ltb m.current_index (length m.flat_items)
    then (do
      item ← item_at m.flat_items m.current_index
      elim (owner item) [ none ↦ settle now m | some c ↦ done (m, stop_container c.id c.name) ])
    else settle now m
update_key voice now m = done (record m { is_recording = true }, send_voice m.containers)
update_key paste now m = done (record m { is_pasting = true }, send_paste m.containers)
update_key enter now m =
    if ltb m.current_index (length m.flat_items)
    then (do
      item ← item_at m.flat_items m.current_index
      elim item.container [
        | none ↦ settle now m
        | some c ↦
            if item.is_container then done (m, open_terminal_to_container c.name) else settle now m
      ])
    else settle now m
update_key other now m = settle now m

unfoldable pub update : ℕ → BridgeModel → Msg → Outcome (BridgeModel × Cmd)
update now m (key_msg s) = update_key (parse_key s) now m
update now m (window_size_msg w h) = settle now (record m { width = w; height = h })
update now m (refresh_msg containers) = do m1 ← refresh m containers; settle now m1
update now m tick_msg = done (m, refresh_and_tick)
update now m (container_stopped_msg name) = done (
  record m { status_message = codes "Stopped: " ++ name; status_expiry = some (now + status_time) },
  refresh_data,
)
update now m new_session_msg = done (m, refresh_data)
update now m (status_msg message) = settle now (record m {
  status_message = message;
  status_expiry = some (now + status_time);
  is_recording = false;
  is_pasting = false;
})
update now m other_msg = settle now m
