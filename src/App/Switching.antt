-- ===== src/App/Switching.antt =====
-- The switching of channels in src/app.cpp.
use ircord_client.Base.{
  ℕ, suc, ◌+◌, ◌-◌, ◌%◌, Option, none, some, List, [], ◌∷◌, ◌++◌, if◌then◌else◌, is_empty,
  get_elem?, length, Text, codes, text_eq,
}
use ircord_client.Base.Assoc.{or_default}
use ircord_client.AppState.{channel_list, active_channel, ensure_channel, set_active_channel}
use ircord_client.App.Types.{App}
use ircord_client.App.Names.{canonical_channel_id}
use ircord_client.App.Logs.{push_system_msg}

abbrev suc_of : Option ℕ → Option ℕ
suc_of none = none
suc_of (some i) = some (suc i)

-- `std::find`
unfoldable pub place_of : Text → List Text → Option ℕ
place_of x [] = none
place_of x (y ∷ ys) = let rest = place_of x ys in if text_eq y x then some 0 else suc_of rest

-- The place of a text in a list, 0 where it is not there.
unfoldable pub index_of : Text → List Text → ℕ
unfolding place_of
index_of x xs = or_default 0 (place_of x xs)

-- The `delta` of the key bindings: 1 or -1.
pub data Delta : Type 0 where
  forward back : Delta

abbrev pub moved : Delta → ℕ → ℕ → ℕ
moved forward n idx = (idx + 1 + n) % n
moved back n idx = (idx + n - 1) % n

module _ {ℓ} {C : Type ℓ} where
  unfoldable pub switch_to_channel : ℕ → Text → App C → App C
  unfolding push_system_msg canonical_channel_id
  switch_to_channel now channel_id a =
      let id = canonical_channel_id channel_id in
      push_system_msg now (codes "Switched to " ++ id) (record a {
        handler = record a.handler {
          state = set_active_channel id (ensure_channel id a.handler.state);
        };
      })

  abbrev pub switch_to_place : ℕ → Option Text → App C → App C
  switch_to_place now none a = a
  switch_to_place now (some channel_id) a = switch_to_channel now channel_id a

  -- An index that is not negative; a negative one does nothing.
  unfoldable pub switch_to_channel_by_index : ℕ → ℕ → App C → App C
  unfolding switch_to_channel
  switch_to_channel_by_index now index a =
      switch_to_place now (get_elem? (channel_list a.handler.state) index) a

  -- The place of the active channel, or of the first if none is active; the switch from there.
  unfoldable pub switch_channel : ℕ → Delta → App C → App C
  unfolding switch_to_channel index_of
  switch_channel now delta a =
      let channels = channel_list a.handler.state in
      let active =
        or_default (or_default [] (get_elem? channels 0)) (active_channel a.handler.state) in
      if is_empty channels
      then a
      else switch_to_place now
          (get_elem? channels (moved delta (length channels) (index_of active channels))) a
