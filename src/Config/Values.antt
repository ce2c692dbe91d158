-- ===== src/Config/Values.antt =====
-- The assignments of `save_config` and `export_settings` in src/config.cpp: for each section its keys
-- and their values, in order.
use ircord_client.Base.{
  Option, none, some, List, [], ◌∷◌, ◌++◌, if◌then◌else◌, is_empty, Text, codes,
}
use ircord_client.Base.Assoc.{Assoc}
use ircord_client.Config.Types.{
  ServerConfig, IdentityConfig, UiConfig, VoiceConfig, PreviewConfig, TlsConfig, ConnectionConfig,
  NotificationConfig, ClientConfig,
}
use ircord_client.Config.TomlLibrary.{Toml}

module _ {Value Float : Type 0} (toml : Toml Value Float) where
  -- `data[section][key] = value;` for each, none where one throws.
  unfoldable pub assign_keys : Text → Assoc Value → Value → Option Value
  assign_keys section [] d = some d
  assign_keys section ((key, v) ∷ vs) d = elim (toml.assign section key v d) [
    | none ↦ none
    | some d' ↦ assign_keys section vs d'
  ]

  unfoldable pub assign_all : List (Text × Assoc Value) → Value → Option Value
  assign_all [] d = some d
  assign_all ((section, vs) ∷ ss) d = elim (assign_keys section vs d) [
    | none ↦ none
    | some d' ↦ assign_all ss d'
  ]

  abbrev pub host_values : ServerConfig → Assoc Value
  host_values s = (codes "host", toml.of_text s.host) ∷ (codes "port", toml.of_int s.port) ∷ []

  -- `if (!text.empty()) data[section][key] = text;`
  abbrev pub unless_empty : Text → Text → Assoc Value
  unless_empty key text = if is_empty text then [] else (key, toml.of_text text) ∷ []

  abbrev pub server_values : ServerConfig → Assoc Value
  server_values s = host_values s ++ unless_empty (codes "cert_pin") s.cert_pin

  abbrev pub identity_values : IdentityConfig → Assoc Value
  identity_values s =
      (codes "user_id", toml.of_text s.user_id) ∷ unless_empty (codes "key_file") s.key_file

  abbrev pub ui_values : UiConfig → Assoc Value
  ui_values s =
      (codes "theme", toml.of_text s.theme)
      ∷ (codes "timestamp_format", toml.of_text s.timestamp_format)
      ∷ (codes "max_messages", toml.of_int s.max_messages)
      ∷ (codes "font_scale", toml.of_int s.font_scale)
      ∷ (codes "show_timestamps", toml.of_bool s.show_timestamps)
      ∷ (codes "show_user_colors", toml.of_bool s.show_user_colors)
      ∷ (codes "user_list_width", toml.of_int s.user_list_width)
      ∷ (codes "user_list_collapsed", toml.of_bool s.user_list_collapsed)
      ∷ []

  abbrev pub voice_values : VoiceConfig Float → Assoc Value
  voice_values s =
      (codes "input_device", toml.of_text s.input_device)
      ∷ (codes "output_device", toml.of_text s.output_device)
      ∷ (codes "opus_bitrate", toml.of_int s.opus_bitrate)
      ∷ (codes "frame_ms", toml.of_int s.frame_ms)
      ∷ (codes "mode", toml.of_text s.mode)
      ∷ (codes "ptt_key", toml.of_text s.ptt_key)
      ∷ (codes "vad_threshold", toml.of_float s.vad_threshold)
      ∷ (codes "ice_servers", toml.of_texts s.ice_servers)
      ∷ (codes "turn_username", toml.of_text s.turn_username)
      ∷ (codes "turn_password", toml.of_text s.turn_password)
      ∷ []

  abbrev pub preview_values : PreviewConfig → Assoc Value
  preview_values s =
      (codes "enabled", toml.of_bool s.enabled)
      ∷ (codes "fetch_timeout", toml.of_int s.fetch_timeout)
      ∷ (codes "max_cache", toml.of_int s.max_cache)
      ∷ []

  abbrev pub tls_values : TlsConfig → Assoc Value
  tls_values s = (codes "verify_peer", toml.of_bool s.verify_peer) ∷ []

  abbrev pub connection_values : ConnectionConfig → Assoc Value
  connection_values s =
      (codes "auto_reconnect", toml.of_bool s.auto_reconnect)
      ∷ (codes "reconnect_delay_sec", toml.of_int s.reconnect_delay_sec)
      ∷ (codes "timeout_sec", toml.of_int s.timeout_sec)
      ∷ []

  abbrev pub notification_values : NotificationConfig → Assoc Value
  notification_values s =
      (codes "desktop_notifications", toml.of_bool s.desktop_notifications)
      ∷ (codes "sound_alerts", toml.of_bool s.sound_alerts)
      ∷ (codes "notify_on_mention", toml.of_bool s.notify_on_mention)
      ∷ (codes "notify_on_dm", toml.of_bool s.notify_on_dm)
      ∷ (codes "mention_keywords", toml.of_text s.mention_keywords)
      ∷ []

  -- What both functions write.
  abbrev pub settings_values : ClientConfig Float → List (Text × Assoc Value)
  settings_values cfg =
      (codes "ui", ui_values cfg.ui)
      ∷ (codes "voice", voice_values cfg.voice)
      ∷ (codes "preview", preview_values cfg.preview)
      ∷ (codes "tls", tls_values cfg.tls)
      ∷ (codes "connection", connection_values cfg.connection)
      ∷ (codes "notifications", notification_values cfg.notifications)
      ∷ []

  abbrev pub saved_values : ClientConfig Float → List (Text × Assoc Value)
  saved_values cfg =
      (codes "server", server_values cfg.server)
      ∷ (codes "identity", identity_values cfg.identity)
      ∷ settings_values cfg

  abbrev pub exported_values : ClientConfig Float → List (Text × Assoc Value)
  exported_values cfg = (codes "server", host_values cfg.server) ∷ settings_values cfg
