-- ===== src/Config/Cleared.antt =====
-- src/config.cpp: `clear_local_client_state` as a whole, with the file that it saves.
use ircord_client.Base.{
  ◌≡◌, ◌≢◌, refl, ap, true, false, Option, none, some, List, ◌∷◌, ◌++◌, is_empty, Text, codes,
}
use ircord_client.Config.Types.{ClientConfig, AreInts}
use ircord_client.Config.TomlLibrary.{Toml}
use ircord_client.Config.FileSystem.{Files}
use ircord_client.Config.Values.{saved_values}
use ircord_client.Config.Patches.{Admits}
use ircord_client.Config.Sections.{text_of}
use ircord_client.Config.RoundTrip.{IsReadable, load_config-save_config}
use ircord_client.Config.Clear.{AreGone, remove_targets-AreGone, remove_targets-StopsAt}
use ircord_client.Config.{
  existing_data, load_config, save_config, remove_targets, clear_targets, cleared, clear_message,
  failure_message, clear_local_client_state,
}

cleared-AreInts : {Float : Type 0} (cfg : ClientConfig Float) → AreInts cfg → AreInts (cleared cfg)
cleared-AreInts cfg h = record {
  port_lt = h.port_lt;
  max_messages_lt = h.max_messages_lt;
  font_scale_lt = h.font_scale_lt;
  user_list_width_lt = h.user_list_width_lt;
  opus_bitrate_lt = h.opus_bitrate_lt;
  frame_ms_lt = h.frame_ms_lt;
  fetch_timeout_lt = h.fetch_timeout_lt;
  max_cache_lt = h.max_cache_lt;
  reconnect_delay_sec_lt = h.reconnect_delay_sec_lt;
  timeout_sec_lt = h.timeout_sec_lt;
}

module _ {Value Float Disk : Type 0} (toml : Toml Value Float) (files : Files Disk) where
  -- The disk after the loop over the targets.
  abbrev pub emptied : Option Text → ClientConfig Float → Disk → Disk
  emptied home cfg disk = (remove_targets files (clear_targets home cfg) 0 disk).0

  module _ (cfg : ClientConfig Float) (home : Option Text) (path : Text) (disk : Disk)
      (ends : (remove_targets files (clear_targets home cfg) 0 disk).2 ≡ none) where
    -- Where no target's removal throws and the save goes through, clearing succeeds; before that save
    -- no target is left on the disk.
    pub clear_local_client_state-AreGone :
        (disk' : Disk)
        → save_config toml files (cleared cfg) path (emptied home cfg disk) ≡ some disk'
        → (clear_local_client_state toml files home path cfg disk
            ≡ some (
              cleared cfg,
              disk',
              clear_message (remove_targets files (clear_targets home cfg) 0 disk).1,
              true,
            ))
          × AreGone files (clear_targets home cfg) (emptied home cfg disk)
    unfolding clear_local_client_state
    clear_local_client_state-AreGone disk' saved = (
      rw (ends, clear_local_client_state) (rw (saved, clear_local_client_state) refl),
      remove_targets-AreGone files (clear_targets home cfg) 0 disk ends,
    )

    -- Clearing succeeds, but the file that it saves loads with the pinned certificate and the key file
    -- that the file named before: an empty one is not written.
    pub clear_local_client_state_stale :
        (threshold : Float)
        → is_empty path ≡ false
        → AreInts cfg
        → Admits toml
            (saved_values toml (cleared cfg))
            (existing_data toml files path (emptied home cfg disk))
        → IsReadable toml files (existing_data toml files path (emptied home cfg disk))
        → ((t : Text) → files.write path t (emptied home cfg disk) ≢ none)
        → let old = existing_data toml files path (emptied home cfg disk) in
          (disk' : Disk) × (message : Text) × (clear_local_client_state toml files home path cfg
              disk
            ≡ some (cleared cfg, disk', message, true))
          × ((load_config toml files threshold home path disk').server.cert_pin
              ≡ text_of toml (toml.entry (codes "server") (codes "cert_pin") old))
          × ((load_config toml files threshold home path disk').identity.key_file
              ≡ text_of toml (toml.entry (codes "identity") (codes "key_file") old))
    clear_local_client_state_stale threshold named h admitted readable writable =
        let (disk', saved, loaded) =
          load_config-save_config toml files (cleared cfg) threshold home path
            (emptied home cfg disk) named (cleared-AreInts cfg h) admitted readable writable in
        (
          disk',
          _,
          (clear_local_client_state-AreGone disk' saved).0,
          ap (λ c. c.server.cert_pin) loaded,
          ap (λ c. c.identity.key_file) loaded,
        )

  -- Where a removal throws with a text, the configuration stays and is not saved, the message names a
  -- target, and the targets before it are gone.
  pub clear_local_client_state-StopsAt :
      (cfg : ClientConfig Float) (home : Option Text) (path : Text) (disk : Disk) (t reason : Text)
      → (remove_targets files (clear_targets home cfg) 0 disk).2 ≡ some (t, reason)
      → is_empty reason ≡ false
      → (before : List Text) × (after : List Text) × (clear_targets home cfg
          ≡ before ++ (t ∷ after))
        × (clear_local_client_state toml files home path cfg disk
            ≡ some (cfg, emptied home cfg disk, failure_message t reason, false))
        × AreGone files before (emptied home cfg disk)
  unfolding clear_local_client_state
  clear_local_client_state-StopsAt cfg home path disk t reason stopped said =
      let (before, after, e, gone) =
        remove_targets-StopsAt files (clear_targets home cfg) 0 disk t reason stopped in
      (
        before,
        after,
        e,
        rw (stopped, clear_local_client_state) (rw (said, clear_local_client_state) refl),
        gone,
      )
