-- ===== src/Config/Import.antt =====
-- src/config.cpp: what an import leaves alone, and when it succeeds.
use ircord_client.Base.{◌≡◌, refl, ◌∙◌, Text, codes, Option-cases, Bool-cases, inl, inr}
use ircord_client.Config.Types.{ServerConfig, IdentityConfig, ClientConfig}
use ircord_client.Config.TomlLibrary.{Toml}
use ircord_client.Config.FileSystem.{Files}
use ircord_client.Config.Fields.{
  Attempt, done, threw, ◌>>=◌, within, state_of, read_keys, read_settings, read_ui, read_voice,
  read_preview, read_tls, read_connection, read_notifications, ui_reads, voice_reads, preview_reads,
  tls_reads, connection_reads, notification_reads,
}
use ircord_client.Config.{parse_file, imported, import_settings}

module _ {Value Float Disk : Type 0} (toml : Toml Value Float) (files : Files Disk) where
  -- The parts of a configuration that are not settings.
  abbrev pub own_parts : ClientConfig Float → ServerConfig × IdentityConfig × Text × Text
  own_parts cfg = (cfg.server, cfg.identity, cfg.config_dir, cfg.db_path)

  -- A block that sets one section keeps them.
  Keeps : (Value → ClientConfig Float → Attempt (ClientConfig Float)) → Type 0
  Keeps block =
      (d : Value) (c : ClientConfig Float) → own_parts (state_of (block d c)) ≡ own_parts c

  within_parts :
      {S : Type 0} (c : ClientConfig Float) (set : S → ClientConfig Float) (m : Attempt S)
      → ((s : S) → own_parts (set s) ≡ own_parts c)
      → own_parts (state_of (within set m)) ≡ own_parts c
  within_parts c set (done s) h = h s
  within_parts c set (threw s) h = h s

  bind_parts :
      (c : ClientConfig Float) (m : Attempt (ClientConfig Float))
      (f : ClientConfig Float → Attempt (ClientConfig Float))
      → own_parts (state_of m) ≡ own_parts c
      → ((s : ClientConfig Float) → own_parts (state_of (f s)) ≡ own_parts s)
      → own_parts (state_of (m >>= f)) ≡ own_parts c
  bind_parts c (done s) f h k = k s ∙ h
  bind_parts c (threw s) f h k = h

  read_ui-Keeps : Keeps (read_ui toml)
  unfolding Keeps
  read_ui-Keeps d c =
      within_parts c (λ s. record c { ui = s })
        (read_keys (λ k. toml.entry (codes "ui") k d) (ui_reads toml) c.ui) (λ s. refl)

  read_voice-Keeps : Keeps (read_voice toml)
  unfolding Keeps
  read_voice-Keeps d c =
      within_parts c (λ s. record c { voice = s })
        (read_keys (λ k. toml.entry (codes "voice") k d) (voice_reads toml) c.voice) (λ s. refl)

  read_preview-Keeps : Keeps (read_preview toml)
  unfolding Keeps
  read_preview-Keeps d c =
      within_parts c (λ s. record c { preview = s })
        (read_keys (λ k. toml.entry (codes "preview") k d) (preview_reads toml) c.preview)
        (λ s. refl)

  read_tls-Keeps : Keeps (read_tls toml)
  unfolding Keeps
  read_tls-Keeps d c =
      within_parts c (λ s. record c { tls = s })
        (read_keys (λ k. toml.entry (codes "tls") k d) (tls_reads toml) c.tls) (λ s. refl)

  read_connection-Keeps : Keeps (read_connection toml)
  unfolding Keeps
  read_connection-Keeps d c =
      within_parts c (λ s. record c { connection = s })
        (read_keys (λ k. toml.entry (codes "connection") k d) (connection_reads toml) c.connection)
        (λ s. refl)

  read_notifications-Keeps : Keeps (read_notifications toml)
  unfolding Keeps
  read_notifications-Keeps d c =
      within_parts c (λ s. record c { notifications = s })
        (read_keys (λ k. toml.entry (codes "notifications") k d) (notification_reads toml)
          c.notifications)
        (λ s. refl)

  read_settings-own_parts :
      (d : Value) (cfg : ClientConfig Float)
      → own_parts (state_of (read_settings toml d cfg)) ≡ own_parts cfg
  unfolding read_settings Keeps
  read_settings-own_parts d cfg =
      bind_parts cfg
        (read_ui toml d cfg
          >>= read_voice toml d
          >>= read_preview toml d
          >>= read_tls toml d
          >>= read_connection toml d)
        (read_notifications toml d)
        (bind_parts cfg
          (read_ui toml d cfg >>= read_voice toml d >>= read_preview toml d >>= read_tls toml d)
          (read_connection toml d)
          (bind_parts cfg (read_ui toml d cfg >>= read_voice toml d >>= read_preview toml d)
            (read_tls toml d)
            (bind_parts cfg (read_ui toml d cfg >>= read_voice toml d) (read_preview toml d)
              (bind_parts cfg (read_ui toml d cfg) (read_voice toml d) (read_ui-Keeps d cfg)
                (λ c. (read_voice-Keeps d c)))
              (λ c. (read_preview-Keeps d c)))
            (λ c. (read_tls-Keeps d c)))
          (λ c. (read_connection-Keeps d c)))
        (λ c. (read_notifications-Keeps d c))

  imported_parts :
      (m : Attempt (ClientConfig Float)) → own_parts (imported m).0 ≡ own_parts (state_of m)
  imported_parts (done c) = refl
  imported_parts (threw c) = refl

  -- An import, successful or not, leaves the server, the identity and the two directories alone.
  pub import_settings-own_parts :
      (cfg : ClientConfig Float) (path : Text) (disk : Disk)
      → own_parts (import_settings toml files cfg path disk).0 ≡ own_parts cfg
  unfolding import_settings
  import_settings-own_parts cfg path disk = elim (Bool-cases (files.exists path disk)) [
    | inl there ↦ elim (Option-cases (parse_file toml files path disk)) [
      | inl e ↦ rw (there, import_settings) (rw (e, import_settings) refl)
      | inr (d, e) ↦
          rw (there, import_settings)
            (rw (e, import_settings)
              (imported_parts (read_settings toml d cfg) ∙ read_settings-own_parts d cfg))
    ]
    | inr missing ↦ rw (missing, import_settings) refl
  ]
