-- ===== src/Config/Tests.antt =====
-- Runs of src/config.cpp, and each theorem at an input that meets its hypotheses.
use ircord_client.Base.{
  ℕ, ◌≡◌, ◌≢◌, refl, true, false, Option, none, some, [], ◌∷◌, Text, codes, text_eq, arith, inl,
  inr,
}
use ircord_client.Base.Assoc.{Assoc, lookup, insert, erase, or_default}
use ircord_client.Config.Types.{ClientConfig, AreInts}
use ircord_client.Config.Fields.{read_settings}
use ircord_client.Config.Values.{assign_all, assign_keys, saved_values}
use ircord_client.Config.Patches.{Admits}
use ircord_client.Config.RoundTrip.{
  IsReadable, reloaded, load_config-save_config, import_settings-export_settings,
}
use ircord_client.Config.Foreign.{save_config-foreign}
use ircord_client.Config.Cleared.{emptied}
use ircord_client.Config.Examples.{library, file_system, framed, find_entry, locked}
use ircord_client.Config.{
  initial_config, parse_file, existing_data, load_config, save_config, import_settings,
  export_settings, remove_targets, clear_targets, cleared, add_target,
}

abbrev home : Option Text
home = some (codes "/home/ann")

abbrev path : Text
path = codes "/home/ann/.config/ircord/config.toml"

-- A file with a password, a pin and an entry that the client does not know.
abbrev old_file : Text
old_file =
    5
    ∷ 3
    ∷ framed (codes "identity") (
        framed (codes "password") (
          framed (0 ∷ codes "pw") (
            framed (codes "server") (
              framed (codes "cert_pin") (
                framed (0 ∷ codes "ab")
                  (framed (codes "ui") (framed (codes "legacy") (framed (1 ∷ 7 ∷ []) []))))))))

abbrev disk : Assoc Text
disk = (path, old_file) ∷ []

abbrev ann : ClientConfig ℕ
ann = initial_config 20 home

ann-AreInts : AreInts ann
ann-AreInts = record {
  port_lt = omega arith;
  max_messages_lt = omega arith;
  font_scale_lt = omega arith;
  user_list_width_lt = omega arith;
  opus_bitrate_lt = omega arith;
  frame_ms_lt = omega arith;
  fetch_timeout_lt = omega arith;
  max_cache_lt = omega arith;
  reconnect_delay_sec_lt = omega arith;
  timeout_sec_lt = omega arith;
}

ann-Admits : Admits library (saved_values library ann) (existing_data library file_system path disk)
unfolding lookup text_eq
ann-Admits = (refl, (refl, (refl, (refl, (refl, (refl, (refl, (refl, tt))))))))

ann-IsReadable : IsReadable library file_system (existing_data library file_system path disk)
unfolding lookup text_eq find_entry
ann-IsReadable = record {
  pin = inr (0 ∷ codes "ab", codes "ab", refl, refl);
  key = inl refl;
  pass = inr (0 ∷ codes "pw", codes "pw", refl, refl);
}

can_write : (t : Text) → some (insert path t disk) ≢ none
can_write t e = cc e

load_config-save_config_example :
    (disk' : Assoc Text) × (save_config library file_system ann path disk ≡ some disk')
    × (load_config library file_system 20 home path disk'
        ≡ reloaded library file_system ann
            (existing_data library file_system path disk)
            (initial_config 20 home))
load_config-save_config_example =
    load_config-save_config library file_system ann 20 home path disk refl ann-AreInts ann-Admits
      ann-IsReadable can_write

save_config-foreign_example :
    (disk' : Assoc Text) × (d : Text) × (save_config library file_system ann path disk ≡ some disk')
    × (parse_file library file_system path disk' ≡ some d)
    × (library.entry (codes "ui") (codes "legacy") d
        ≡ library.entry (codes "ui") (codes "legacy") (existing_data library file_system path disk))
unfolding lookup text_eq
save_config-foreign_example =
    save_config-foreign library file_system ann path disk
      (existing_data library file_system path disk) (codes "ui") (codes "legacy") refl refl refl
      ann-Admits can_write refl

abbrev bob : ClientConfig ℕ
bob = record ann { identity = record ann.identity { user_id = codes "bob"; key_file = locked } }

import_settings-export_settings_example :
    import_settings library file_system bob path (export_settings library file_system ann path disk)
    ≡ (
      record ann {
        server = bob.server;
        identity = bob.identity;
        config_dir = bob.config_dir;
        db_path = bob.db_path;
      },
      true,
    )
import_settings-export_settings_example =
    import_settings-export_settings library file_system ann bob path disk ann-AreInts can_write

-- The section of a wrong type ends an import in the middle.
abbrev ill_typed : Text
ill_typed =
    5
    ∷ 3
    ∷ framed (codes "ui") (
        framed (codes "theme") (
          framed (0 ∷ codes "dark") (
            framed (codes "ui") (
              framed (codes "font_scale") (
                framed (0 ∷ codes "big") (
                  framed (codes "preview")
                    (framed (codes "max_cache") (framed (1 ∷ 7 ∷ []) []))))))))

import_in_part :
    import_settings library file_system ann path ((path, ill_typed) ∷ [])
    ≡ (record ann { ui = record ann.ui { theme = codes "dark" } }, false)
unfolding import_settings read_settings lookup text_eq find_entry
import_in_part = refl

ann_ends : (remove_targets file_system (clear_targets home ann) 0 disk).2 ≡ none
unfolding remove_targets clear_targets add_target lookup text_eq erase
ann_ends = refl

abbrev emptied_disk : Assoc Text
emptied_disk = emptied library file_system home ann disk

abbrev saved_disk : Assoc Text
saved_disk = or_default [] (save_config library file_system (cleared ann) path emptied_disk)

ann_saved : save_config library file_system (cleared ann) path emptied_disk ≡ some saved_disk
unfolding save_config assign_all assign_keys remove_targets clear_targets add_target lookup insert
    text_eq erase
ann_saved = refl

cleared-Admits :
    Admits library
      (saved_values library (cleared ann))
      (existing_data library file_system path emptied_disk)
unfolding lookup text_eq remove_targets clear_targets add_target erase
cleared-Admits = (refl, (refl, (refl, (refl, (refl, (refl, (refl, (refl, tt))))))))

cleared-IsReadable :
    IsReadable library file_system (existing_data library file_system path emptied_disk)
unfolding lookup text_eq find_entry remove_targets clear_targets add_target erase
cleared-IsReadable = record {
  pin = inr (0 ∷ codes "ab", codes "ab", refl, refl);
  key = inl refl;
  pass = inr (0 ∷ codes "pw", codes "pw", refl, refl);
}

can_write_emptied : (t : Text) → some (insert path t emptied_disk) ≢ none
can_write_emptied t e = cc e

-- The database goes, and the key file does not.
abbrev with_key : Assoc Text
with_key = (ann.db_path, []) ∷ (locked, []) ∷ []

bob_stops :
    (remove_targets file_system (clear_targets home bob) 0 with_key).2 ≡ some (locked, codes "busy")
unfolding remove_targets clear_targets add_target lookup text_eq erase
bob_stops = refl
