-- ===== src/Config/RoundTrip.antt =====
-- src/config.cpp: what is saved is loaded, and what is exported is imported.
use ircord_client.Base.{
  ◌≡◌, ◌≢◌, refl, ◌∙◌, ap, true, false, Option, none, some, List, if◌then◌else◌, is_empty, Text,
  codes, text_eq, Option-cases, inl, inr,
}
use ircord_client.Base.Assoc.{Assoc}
use ircord_client.Config.Types.{ClientConfig, AreInts}
use ircord_client.Config.TomlLibrary.{Toml}
use ircord_client.Config.FileSystem.{Files}
use ircord_client.Config.Fields.{done, state_of, server_reads, identity_reads, read_config}
use ircord_client.Config.Values.{
  assign_all, server_values, identity_values, saved_values, exported_values,
}
use ircord_client.Config.Patches.{
  or_else, latest, written, Admits, empty-Admits, assign_all-IsPatch,
}
use ircord_client.Config.Sections.{
  IsText, text_of, HasSettings, server_written, identity_written, read_settings_written,
  read_keys_eq,
}
use ircord_client.Config.{
  initial_config, parse_file, existing_data, load_config, save_config, export_settings,
  import_settings, imported,
}

or_else-none : {A : Type 0} (o : Option A) → or_else o none ≡ o
or_else-none none = refl
or_else-none (some a) = refl

module _ {Value Float Disk : Type 0} (toml : Toml Value Float) (files : Files Disk) where
  -- `d` has the entries of `ss` on top of those of `old`.
  abbrev HasEntries : List (Text × Assoc Value) → Value → Value → Type 0
  HasEntries ss old d =
      (s k : Text) → toml.entry s k d ≡ or_else (written s k ss) (toml.entry s k old)

  saved-HasSettings :
      (cfg : ClientConfig Float) (old d : Value)
      → HasEntries (saved_values toml cfg) old d
      → HasSettings toml cfg (λ s k. toml.entry s k old) d
  unfolding text_eq
  saved-HasSettings cfg old d h = record {
    ui_eq = λ k. h (codes "ui") k ∙ simp or_else-none;
    voice_eq = λ k. h (codes "voice") k ∙ simp or_else-none;
    preview_eq = λ k. h (codes "preview") k ∙ simp or_else-none;
    tls_eq = λ k. h (codes "tls") k ∙ simp or_else-none;
    connection_eq = λ k. h (codes "connection") k ∙ simp or_else-none;
    notifications_eq = λ k. h (codes "notifications") k ∙ simp or_else-none;
  }

  exported-HasSettings :
      (cfg : ClientConfig Float) (old d : Value)
      → HasEntries (exported_values toml cfg) old d
      → HasSettings toml cfg (λ s k. toml.entry s k old) d
  unfolding text_eq
  exported-HasSettings cfg old d h = record {
    ui_eq = λ k. h (codes "ui") k ∙ simp or_else-none;
    voice_eq = λ k. h (codes "voice") k ∙ simp or_else-none;
    preview_eq = λ k. h (codes "preview") k ∙ simp or_else-none;
    tls_eq = λ k. h (codes "tls") k ∙ simp or_else-none;
    connection_eq = λ k. h (codes "connection") k ∙ simp or_else-none;
    notifications_eq = λ k. h (codes "notifications") k ∙ simp or_else-none;
  }

  -- What a file holds after the assignments were made to `old` and written.
  pub stored :
      (ss : List (Text × Assoc Value)) (old : Value) (path : Text) (disk : Disk)
      → Admits toml ss old
      → ((t : Text) → files.write path t disk ≢ none)
      → (d : Value) × (disk' : Disk) × (d' : Value) × (assign_all toml ss old ≡ some d)
        × (files.write path (toml.print d) disk ≡ some disk')
        × (files.exists path disk' ≡ true)
        × (parse_file toml files path disk' ≡ some d')
        × HasEntries ss old d'
  stored ss old path disk admitted writable =
      let (d, assigned, patch) = assign_all-IsPatch toml ss old admitted in
      let (d', parsed, entries) = toml.parse-print d in
      elim (Option-cases (files.write path (toml.print d) disk)) [
        | inl e ↦ absurd (writable _ e)
        | inr (disk', e) ↦
            let (there, content) = files.contents-write path (toml.print d) disk disk' e in
            (
              d,
              disk',
              d',
              assigned,
              e,
              there,
              rw (content, parse_file) parsed,
              λ s k. entries s k ∙ patch.entry_eq s k,
            )
      ]

  -- The entries that a save may leave as they are, or never writes, are strings where they exist.
  pub record IsReadable (old : Value) : Type 0 where
    pub pin : IsText toml (toml.entry (codes "server") (codes "cert_pin") old)
    pub key : IsText toml (toml.entry (codes "identity") (codes "key_file") old)
    pub pass : IsText toml (toml.entry (codes "identity") (codes "password") old)

  -- `cfg` with what the saved file does not say of it.
  abbrev pub reloaded : ClientConfig Float → Value → ClientConfig Float → ClientConfig Float
  reloaded cfg old initial = record cfg {
    server = record cfg.server {
      cert_pin =
          if is_empty cfg.server.cert_pin
          then text_of toml (toml.entry (codes "server") (codes "cert_pin") old)
          else cfg.server.cert_pin;
    };
    identity = record cfg.identity {
      key_file =
          if is_empty cfg.identity.key_file
          then text_of toml (toml.entry (codes "identity") (codes "key_file") old)
          else cfg.identity.key_file;
      password = text_of toml (toml.entry (codes "identity") (codes "password") old);
    };
    config_dir = initial.config_dir;
    db_path = initial.db_path;
  }

  read_config_saved :
      (cfg : ClientConfig Float) (old d : Value) (threshold : Float) (home : Option Text)
      → AreInts cfg
      → IsReadable old
      → HasEntries (saved_values toml cfg) old d
      → read_config toml d (initial_config threshold home)
        ≡ done (reloaded cfg old (initial_config threshold home))
  unfolding read_config text_eq
  read_config_saved cfg old d threshold home h r e =
      let c = initial_config threshold home in
      let server =
        read_keys_eq toml
          {at' = λ k.
            or_else (latest k (server_values toml cfg.server)) (toml.entry (codes "server") k old)}
          (server_reads toml) c.server (e (codes "server"))
        ∙ server_written toml cfg h (λ k. toml.entry (codes "server") k old) c.server refl r.pin in
      let identity =
        read_keys_eq toml
          {at' = λ k.
            or_else (latest k (identity_values toml cfg.identity))
              (toml.entry (codes "identity") k old)}
          (identity_reads toml) c.identity (λ k. e (codes "identity") k ∙ simp or_else-none)
        ∙ identity_written toml cfg h (λ k. toml.entry (codes "identity") k old) c.identity refl
            refl r.key r.pass in
      rw (server, identity) (read_settings_written toml cfg _ _ d h (saved-HasSettings cfg old d e))

  load_config_parsed :
      (threshold : Float) (home : Option Text) (path : Text) (disk : Disk) (d : Value)
      → is_empty path ≡ false
      → files.exists path disk ≡ true
      → parse_file toml files path disk ≡ some d
      → load_config toml files threshold home path disk
        ≡ state_of (read_config toml d (initial_config threshold home))
  unfolding load_config
  load_config_parsed threshold home path disk d named there parsed =
      rw (named, there, load_config) (rw (parsed, load_config) refl)

  -- Saving to a path that can be written, where the sections of the old file are tables, gives a file
  -- that loads as the configuration. An empty pin and an empty key file load as the old file's, the
  -- password as the old file's, and the two directories as the platform's.
  pub load_config-save_config :
      (cfg : ClientConfig Float) (threshold : Float) (home : Option Text) (path : Text)
      (disk : Disk)
      → is_empty path ≡ false
      → AreInts cfg
      → Admits toml (saved_values toml cfg) (existing_data toml files path disk)
      → IsReadable (existing_data toml files path disk)
      → ((t : Text) → files.write path t disk ≢ none)
      → (disk' : Disk) × (save_config toml files cfg path disk ≡ some disk')
        × (load_config toml files threshold home path disk'
            ≡ reloaded cfg (existing_data toml files path disk) (initial_config threshold home))
  unfolding save_config
  load_config-save_config cfg threshold home path disk named h admitted r writable =
      let old = existing_data toml files path disk in
      let (d, disk', d', assigned, wrote, there, parsed, entries) =
        stored (saved_values toml cfg) old path disk admitted writable in
      (
        disk',
        rw (assigned, save_config) (rw wrote refl),
        load_config_parsed threshold home path disk' d' named there parsed
            ∙ ap state_of (read_config_saved cfg old d' threshold home h r entries),
      )

  -- Importing what was exported to a path that can be written succeeds and takes over everything but
  -- the server, the identity and the two directories.
  pub import_settings-export_settings :
      (cfg mine : ClientConfig Float) (path : Text) (disk : Disk)
      → AreInts cfg
      → ((t : Text) → files.write path t disk ≢ none)
      → import_settings toml files mine path (export_settings toml files cfg path disk) ≡ (
        record cfg {
          server = mine.server;
          identity = mine.identity;
          config_dir = mine.config_dir;
          db_path = mine.db_path;
        },
        true,
      )
  unfolding export_settings import_settings
  import_settings-export_settings cfg mine path disk h writable =
      let ss = exported_values toml cfg in
      let (d, disk', d', assigned, wrote, there, parsed, entries) =
        stored ss toml.empty path disk (empty-Admits toml ss) writable in
      rw (assigned, export_settings)
        (rw (wrote, export_settings)
          (rw (there, import_settings)
            (rw (parsed, import_settings)
              (ap imported (
                read_settings_written toml cfg mine _ d' h
                  (exported-HasSettings cfg toml.empty d' entries))))))
