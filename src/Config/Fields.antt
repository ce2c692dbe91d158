-- ===== src/Config/Fields.antt =====
-- The reads of `load_config` and `import_settings` in src/config.cpp: for each section its keys, in
-- order, with the type that is asked for and the field that is set.
use ircord_client.Base.{◌%◌, ◌^◌, Option, none, some, List, [], ◌∷◌, Text, codes}
use ircord_client.Config.Types.{
  ServerConfig, IdentityConfig, UiConfig, VoiceConfig, PreviewConfig, TlsConfig, ConnectionConfig,
  NotificationConfig, ClientConfig,
}
use ircord_client.Config.TomlLibrary.{Toml}

-- The object after a block of code: to its end, or to an exception.
pub data Attempt (S : Type 0) : Type 0 where
  done : S → Attempt S
  threw : S → Attempt S

infixl 5 ◌>>=◌
abbrev pub ◌>>=◌ : {S : Type 0} → Attempt S → (S → Attempt S) → Attempt S
◌>>=◌ (done s) f = f s
◌>>=◌ (threw s) f = threw s

abbrev pub within : {S C : Type 0} → (S → C) → Attempt S → Attempt C
within set (done s) = done (set s)
within set (threw s) = threw (set s)

-- The object, either way.
abbrev pub state_of : {S : Type 0} → Attempt S → S
state_of (done s) = s
state_of (threw s) = s

-- A key with `field = find<...>(section, key)`, none where that throws.
abbrev pub Read : Type 0 → Type 0 → Type 0
Read Value S = Text × (Value → S → Option S)

abbrev pub reads : {Value S A : Type 0} → Text → (Value → Option A) → (A → S → S) → Read Value S
reads {Value} {S} {A} key find set =
    (key, λ v s. elim (find v) [ none ↦ none | some a ↦ some (set a s) ])

-- `if (section.contains(key)) field = find<...>(section, key);` for each.
abbrev pub read_keys :
    {Value S : Type 0} → (Text → Option Value) → List (Read Value S) → S → Attempt S
read_keys at [] s = done s
read_keys at ((key, read) ∷ rs) s = elim (at key) [
  | none ↦ read_keys at rs s
  | some v ↦ elim (read v s) [ none ↦ threw s | some s' ↦ read_keys at rs s' ]
]

module _ {Value Float : Type 0} (toml : Toml Value Float) where
  -- `static_cast<uint16_t>` for the port
  abbrev pub server_reads : List (Read Value ServerConfig)
  server_reads =
      reads (codes "host") toml.as_text (λ x s. record s { host = x })
      ∷ reads (codes "port") toml.as_int (λ x s. record s { port = x % 2 ^ 16 })
      ∷ reads (codes "cert_pin") toml.as_text (λ x s. record s { cert_pin = x })
      ∷ []

  abbrev pub identity_reads : List (Read Value IdentityConfig)
  identity_reads =
      reads (codes "user_id") toml.as_text (λ x s. record s { user_id = x })
      ∷ reads (codes "key_file") toml.as_text (λ x s. record s { key_file = x })
      ∷ reads (codes "password") toml.as_text (λ x s. record s { password = x })
      ∷ []

  abbrev pub ui_reads : List (Read Value UiConfig)
  ui_reads =
      reads (codes "theme") toml.as_text (λ x s. record s { theme = x })
      ∷ reads (codes "timestamp_format") toml.as_text (λ x s. record s { timestamp_format = x })
      ∷ reads (codes "max_messages") toml.as_int (λ x s. record s { max_messages = x })
      ∷ reads (codes "font_scale") toml.as_int (λ x s. record s { font_scale = x })
      ∷ reads (codes "show_timestamps") toml.as_bool (λ x s. record s { show_timestamps = x })
      ∷ reads (codes "show_user_colors") toml.as_bool (λ x s. record s { show_user_colors = x })
      ∷ reads (codes "user_list_width") toml.as_int (λ x s. record s { user_list_width = x })
      ∷ reads (codes "user_list_collapsed") toml.as_bool
          (λ x s. record s { user_list_collapsed = x })
      ∷ []

  abbrev pub voice_reads : List (Read Value (VoiceConfig Float))
  voice_reads =
      reads (codes "input_device") toml.as_text (λ x s. record s { input_device = x })
      ∷ reads (codes "output_device") toml.as_text (λ x s. record s { output_device = x })
      ∷ reads (codes "opus_bitrate") toml.as_int (λ x s. record s { opus_bitrate = x })
      ∷ reads (codes "frame_ms") toml.as_int (λ x s. record s { frame_ms = x })
      ∷ reads (codes "mode") toml.as_text (λ x s. record s { mode = x })
      ∷ reads (codes "ptt_key") toml.as_text (λ x s. record s { ptt_key = x })
      ∷ reads (codes "vad_threshold") toml.as_float (λ x s. record s { vad_threshold = x })
      ∷ reads (codes "ice_servers") toml.as_texts (λ x s. record s { ice_servers = x })
      ∷ reads (codes "turn_username") toml.as_text (λ x s. record s { turn_username = x })
      ∷ reads (codes "turn_password") toml.as_text (λ x s. record s { turn_password = x })
      ∷ []

  abbrev pub preview_reads : List (Read Value PreviewConfig)
  preview_reads =
      reads (codes "enabled") toml.as_bool (λ x s. record s { enabled = x })
      ∷ reads (codes "fetch_timeout") toml.as_int (λ x s. record s { fetch_timeout = x })
      ∷ reads (codes "max_cache") toml.as_int (λ x s. record s { max_cache = x })
      ∷ []

  abbrev pub tls_reads : List (Read Value TlsConfig)
  tls_reads = reads (codes "verify_peer") toml.as_bool (λ x s. record s { verify_peer = x }) ∷ []

  abbrev pub connection_reads : List (Read Value ConnectionConfig)
  connection_reads =
      reads (codes "auto_reconnect") toml.as_bool (λ x s. record s { auto_reconnect = x })
      ∷ reads (codes "reconnect_delay_sec") toml.as_int
          (λ x s. record s { reconnect_delay_sec = x })
      ∷ reads (codes "timeout_sec") toml.as_int (λ x s. record s { timeout_sec = x })
      ∷ []

  abbrev pub notification_reads : List (Read Value NotificationConfig)
  notification_reads =
      reads (codes "desktop_notifications") toml.as_bool
        (λ x s. record s { desktop_notifications = x })
      ∷ reads (codes "sound_alerts") toml.as_bool (λ x s. record s { sound_alerts = x })
      ∷ reads (codes "notify_on_mention") toml.as_bool (λ x s. record s { notify_on_mention = x })
      ∷ reads (codes "notify_on_dm") toml.as_bool (λ x s. record s { notify_on_dm = x })
      ∷ reads (codes "mention_keywords") toml.as_text (λ x s. record s { mention_keywords = x })
      ∷ []

  -- The blocks `if (data.contains(...)) { ... }`.
  abbrev pub read_ui : Value → ClientConfig Float → Attempt (ClientConfig Float)
  read_ui d cfg =
      within (λ s. record cfg { ui = s })
        (read_keys (λ k. toml.entry (codes "ui") k d) ui_reads cfg.ui)

  abbrev pub read_voice : Value → ClientConfig Float → Attempt (ClientConfig Float)
  read_voice d cfg =
      within (λ s. record cfg { voice = s })
        (read_keys (λ k. toml.entry (codes "voice") k d) voice_reads cfg.voice)

  abbrev pub read_preview : Value → ClientConfig Float → Attempt (ClientConfig Float)
  read_preview d cfg =
      within (λ s. record cfg { preview = s })
        (read_keys (λ k. toml.entry (codes "preview") k d) preview_reads cfg.preview)

  abbrev pub read_tls : Value → ClientConfig Float → Attempt (ClientConfig Float)
  read_tls d cfg =
      within (λ s. record cfg { tls = s })
        (read_keys (λ k. toml.entry (codes "tls") k d) tls_reads cfg.tls)

  abbrev pub read_connection : Value → ClientConfig Float → Attempt (ClientConfig Float)
  read_connection d cfg =
      within (λ s. record cfg { connection = s })
        (read_keys (λ k. toml.entry (codes "connection") k d) connection_reads cfg.connection)

  abbrev pub read_notifications : Value → ClientConfig Float → Attempt (ClientConfig Float)
  read_notifications d cfg =
      within (λ s. record cfg { notifications = s })
        (read_keys (λ k. toml.entry (codes "notifications") k d) notification_reads
          cfg.notifications)

  abbrev pub read_server : Value → ClientConfig Float → Attempt (ClientConfig Float)
  read_server d cfg =
      within (λ s. record cfg { server = s })
        (read_keys (λ k. toml.entry (codes "server") k d) server_reads cfg.server)

  abbrev pub read_identity : Value → ClientConfig Float → Attempt (ClientConfig Float)
  read_identity d cfg =
      within (λ s. record cfg { identity = s })
        (read_keys (λ k. toml.entry (codes "identity") k d) identity_reads cfg.identity)

  -- What both functions read, of the document `d`.
  unfoldable pub read_settings : Value → ClientConfig Float → Attempt (ClientConfig Float)
  read_settings d cfg =
      read_ui d cfg
      >>= read_voice d
      >>= read_preview d
      >>= read_tls d
      >>= read_connection d
      >>= read_notifications d

  unfoldable pub read_config : Value → ClientConfig Float → Attempt (ClientConfig Float)
  read_config d cfg = read_server d cfg >>= read_identity d >>= read_settings d
