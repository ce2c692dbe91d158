-- ===== src/Config.antt =====
-- src/config.cpp: the configuration file, the settings that are exported and imported, and clearing
-- the local state of the client. The TOML library and the file system are parameters.
pub mod Types
pub mod TomlLibrary
pub mod FileSystem
pub mod Fields
pub mod Values
pub mod Patches
pub mod Sections
pub mod RoundTrip
pub mod Foreign
pub mod Import
pub mod Clear
pub mod Cleared
mod Examples
mod Tests
use ircord_client.Base.{
  ℕ, ◌+◌, ltb, ◌==◌, Bool, true, false, ◌||◌, ◌&&◌, not, Option, none, some, List, [], ◌∷◌, ◌++◌,
  if◌then◌else◌, is_empty, Text, codes, text_eq,
}
use ircord_client.Config.Types.{ClientConfig, default_config}
use ircord_client.Config.TomlLibrary.{Toml}
use ircord_client.Config.FileSystem.{Files, Removal, removed, failed}
use ircord_client.Config.Fields.{Attempt, done, threw, state_of, read_config, read_settings}
use ircord_client.Config.Values.{assign_all, saved_values, exported_values}

abbrev pub ends_with_slash : Text → Bool
ends_with_slash [] = false
ends_with_slash (c ∷ []) = c == 47
ends_with_slash (c ∷ d ∷ s) = ends_with_slash (d ∷ s)

-- `path / name` for a relative name.
abbrev pub join : Text → Text → Text
join path name = if is_empty path || ends_with_slash path then path ++ name else path ++ (47 ∷ name)

-- `home` is the variable HOME; elsewhere than on Windows.
abbrev pub default_config_dir : Option Text → Text
default_config_dir none = codes "."
default_config_dir (some home) = join (join home (codes ".config")) (codes "ircord")

abbrev pub default_credentials_path : Option Text → Text
default_credentials_path none = codes "credentials.enc"
default_credentials_path (some home) =
    join (join (join home (codes ".config")) (codes "ircord")) (codes "credentials.enc")

abbrev pub any_equal : Text → List Text → Bool
any_equal path [] = false
any_equal path (p ∷ ps) = text_eq p path || any_equal path ps

-- `add_target`
unfoldable pub add_target : List Text → Text → List Text
add_target targets path =
    if is_empty path || any_equal path targets then targets else targets ++ (path ∷ [])

-- `!failed_reason.empty()`: an exception without a text counts as none.
abbrev pub failure_of : Option (Text × Text) → Option (Text × Text)
failure_of none = none
failure_of (some (target, reason)) = if is_empty reason then none else some (target, reason)

abbrev pub failure_message : Text → Text → Text
failure_message target reason =
    codes "Failed to clear local data at " ++ (target ++ (codes ": " ++ reason))

abbrev pub clear_message : ℕ → Text
clear_message count =
    if ltb 0 count
    then codes
        "Local credentials and identity data cleared. Enter the same username and passkey to re-sync keys."
    else codes
        "No local credential files were found. Enter the same username and passkey to re-sync keys."

-- The removal of one target that exists: how many entries went, or the text of the exception.
module _ {Disk : Type 0} (files : Files Disk) where
  abbrev pub remove_target : Text → Disk → Disk × Removal
  remove_target target disk =
      if files.is_directory target disk
      then files.remove_all target disk
      else files.remove target disk

  -- The loop over the targets, with `removed_count` so far; it ends at the first exception.
  unfoldable pub remove_targets : List Text → ℕ → Disk → Disk × ℕ × Option (Text × Text)
  remove_targets [] count disk = (disk, count, none)
  remove_targets (target ∷ targets) count disk = elim (files.exists target disk) [
    | false ↦ remove_targets targets count disk
    | true ↦
        let (disk', r) = remove_target target disk in
        elim r [
          | removed n ↦ remove_targets targets (count + n) disk'
          | failed reason ↦ (disk', count, some (target, reason))
        ]
  ]

-- What `import_settings` returns at its end, and in its `catch`.
abbrev pub imported : {Float : Type 0} → Attempt (ClientConfig Float) → ClientConfig Float × Bool
imported (done cfg) = (cfg, true)
imported (threw cfg) = (cfg, false)

-- `targets`, after the four calls of `add_target`
unfoldable pub clear_targets : {Float : Type 0} → Option Text → ClientConfig Float → List Text
clear_targets home cfg =
    let a = add_target [] (default_credentials_path home) in
    let b = add_target a cfg.db_path in
    let c = if is_empty cfg.identity.key_file then b else add_target b cfg.identity.key_file in
    add_target c (join cfg.config_dir (codes "identity.key"))

-- The configuration without what names the identity.
abbrev pub cleared : {Float : Type 0} → ClientConfig Float → ClientConfig Float
cleared cfg = record cfg {
  identity = record cfg.identity { user_id = codes "user"; key_file = [] };
  server = record cfg.server { cert_pin = [] };
}

-- The object of `load_config` before the file is read; `threshold` is the float 0.02f.
abbrev pub initial_config : {Float : Type 0} → Float → Option Text → ClientConfig Float
initial_config threshold home =
    let dir = default_config_dir home in
    record (default_config threshold) { config_dir = dir; db_path = join dir (codes "ircord.db") }

module _ {Value Float Disk : Type 0} (toml : Toml Value Float) (files : Files Disk) where
  -- `toml::parse(path)`, none where it throws
  abbrev pub parse_file : Text → Disk → Option Value
  parse_file path disk = elim (files.contents path disk) [ none ↦ none | some t ↦ toml.parse t ]

  unfoldable pub load_config : Float → Option Text → Text → Disk → ClientConfig Float
  load_config threshold home path disk =
      let cfg = initial_config threshold home in
      if is_empty path || not (files.exists path disk)
      then cfg
      else elim (parse_file path disk) [ none ↦ cfg | some d ↦ state_of (read_config toml d cfg) ]

  -- The document that is patched: the file's, or an empty one.
  abbrev pub existing_data : Text → Disk → Value
  existing_data path disk =
      if not (is_empty path) && files.exists path disk
      then elim (parse_file path disk) [ none ↦ toml.empty | some d ↦ d ]
      else toml.empty

  -- The disk as it was where nothing can be written, and none where an exception leaves the function:
  -- the patches are outside of its `try`.
  unfoldable pub save_config : ClientConfig Float → Text → Disk → Option Disk
  save_config cfg path disk =
      elim (assign_all toml (saved_values toml cfg) (existing_data path disk)) [
        | none ↦ none
        | some d ↦
            some (elim (files.write path (toml.print d) disk) [ none ↦ disk | some disk' ↦ disk' ])
      ]

  unfoldable pub export_settings : ClientConfig Float → Text → Disk → Disk
  export_settings cfg path disk = elim (assign_all toml (exported_values toml cfg) toml.empty) [
    | none ↦ disk
    | some d ↦ elim (files.write path (toml.print d) disk) [ none ↦ disk | some disk' ↦ disk' ]
  ]

  unfoldable pub import_settings : ClientConfig Float → Text → Disk → ClientConfig Float × Bool
  import_settings cfg path disk =
      if not (files.exists path disk) then (cfg, false) else elim (parse_file path disk) [
        | none ↦ (cfg, false)
        | some d ↦ imported (read_settings toml d cfg)
      ]

  -- The configuration, the disk, the status message and what is returned; none where the exception
  -- of `save_config` leaves the function.
  unfoldable pub clear_local_client_state :
      Option Text
      → Text
      → ClientConfig Float
      → Disk
      → Option (ClientConfig Float × Disk × Text × Bool)
  clear_local_client_state home path cfg disk =
      let (disk', count, failure) = remove_targets files (clear_targets home cfg) 0 disk in
      elim (failure_of failure) [
        | some (at, reason) ↦ some (cfg, disk', failure_message at reason, false)
        | none ↦ elim (save_config (cleared cfg) path disk') [
          | none ↦ none
          | some disk'' ↦ some (cleared cfg, disk'', clear_message count, true)
        ]
      ]
