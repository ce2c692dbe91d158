-- ===== src/Config/Sections.antt =====
-- src/config.cpp: a section of a document that holds a configuration's values is read as these.
use mathlib.Core.Path.{fun_ext}
use ircord_client.Base.{
  ◌%◌, ◌≡◌, ◌<◌, ◌^◌, [], ◌⊎◌, ap, ◌∙◌, List, inl, inr, Option, none, some, is_empty, if◌then◌else◌,
  Text, codes, text_eq, arith, Bool-cases,
}
use ircord_client.Base.Assoc.{or_default}
use ircord_client.Config.Types.{
  ServerConfig, IdentityConfig, UiConfig, VoiceConfig, PreviewConfig, TlsConfig, ConnectionConfig,
  NotificationConfig, ClientConfig, AreInts,
}
use ircord_client.Config.TomlLibrary.{Toml}
use ircord_client.Config.Fields.{
  Read, done, read_keys, server_reads, identity_reads, ui_reads, voice_reads, preview_reads,
  tls_reads, connection_reads, notification_reads, read_settings,
}
use ircord_client.Config.Values.{
  server_values, identity_values, ui_values, voice_values, preview_values, tls_values,
  connection_values, notification_values,
}
use ircord_client.Config.Patches.{or_else, latest}

module _ {Value Float : Type 0} (toml : Toml Value Float) where
  -- An entry that is missing or a string.
  abbrev pub IsText : Option Value → Type 0
  IsText o = (o ≡ none) ⊎ ((v : Value) × (x : Text) × (o ≡ some v) × (toml.as_text v ≡ some x))

  abbrev pub text_of : Option Value → Text
  text_of none = []
  text_of (some v) = or_default [] (toml.as_text v)

  module _ (cfg : ClientConfig Float) (h : AreInts cfg) (old : Text → Option Value) where
    pub ui_written :
        (u : UiConfig)
        → read_keys (λ k. or_else (latest k (ui_values toml cfg.ui)) (old k)) (ui_reads toml) u
          ≡ done cfg.ui
    unfolding text_eq
    ui_written u = simp (
      toml.as_text-of_text,
      toml.as_bool-of_bool,
      toml.as_int-of_int _ h.max_messages_lt,
      toml.as_int-of_int _ h.font_scale_lt,
      toml.as_int-of_int _ h.user_list_width_lt,
    )

    pub voice_written :
        (u : VoiceConfig Float)
        → read_keys
            (λ k. or_else (latest k (voice_values toml cfg.voice)) (old k))
            (voice_reads toml)
            u
          ≡ done cfg.voice
    unfolding text_eq
    voice_written u = simp (
      toml.as_text-of_text,
      toml.as_texts-of_texts,
      toml.as_float-of_float,
      toml.as_int-of_int _ h.opus_bitrate_lt,
      toml.as_int-of_int _ h.frame_ms_lt,
    )

    pub preview_written :
        (u : PreviewConfig)
        → read_keys
            (λ k. or_else (latest k (preview_values toml cfg.preview)) (old k))
            (preview_reads toml)
            u
          ≡ done cfg.preview
    unfolding text_eq
    preview_written u = simp (
      toml.as_bool-of_bool,
      toml.as_int-of_int _ h.fetch_timeout_lt,
      toml.as_int-of_int _ h.max_cache_lt,
    )

    pub tls_written :
        (u : TlsConfig)
        → read_keys (λ k. or_else (latest k (tls_values toml cfg.tls)) (old k)) (tls_reads toml) u
          ≡ done cfg.tls
    unfolding text_eq
    tls_written u = simp (toml.as_bool-of_bool)

    pub connection_written :
        (u : ConnectionConfig)
        → read_keys
            (λ k. or_else (latest k (connection_values toml cfg.connection)) (old k))
            (connection_reads toml)
            u
          ≡ done cfg.connection
    unfolding text_eq
    connection_written u = simp (
      toml.as_bool-of_bool,
      toml.as_int-of_int _ h.reconnect_delay_sec_lt,
      toml.as_int-of_int _ h.timeout_sec_lt,
    )

    pub notifications_written :
        (u : NotificationConfig)
        → read_keys
            (λ k. or_else (latest k (notification_values toml cfg.notifications)) (old k))
            (notification_reads toml)
            u
          ≡ done cfg.notifications
    unfolding text_eq
    notifications_written u = simp (toml.as_bool-of_bool, toml.as_text-of_text)

    port_eq : cfg.server.port % 2 ^ 16 ≡ cfg.server.port
    port_eq = omega (arith, h.port_lt)

    port_word : cfg.server.port < 2 ^ 32
    port_word = omega (arith, h.port_lt)

    -- An empty pin is not written, so that the entry that is there is read.
    pub server_written :
        (u : ServerConfig)
        → u.cert_pin ≡ []
        → IsText (old (codes "cert_pin"))
        → read_keys
            (λ k. or_else (latest k (server_values toml cfg.server)) (old k))
            (server_reads toml)
            u
          ≡ done (record cfg.server {
            cert_pin =
                if is_empty cfg.server.cert_pin
                then text_of (old (codes "cert_pin"))
                else cfg.server.cert_pin;
          })
    unfolding text_eq
    server_written u e k = elim (Bool-cases (is_empty cfg.server.cert_pin)) [
      | inl none_set ↦ elim k [
        | inl missing ↦
            simp
              (none_set, missing, e, toml.as_text-of_text, toml.as_int-of_int _ port_word, port_eq)
        | inr (v, x, found, is_text) ↦ simp (
          none_set,
          found,
          is_text,
          toml.as_text-of_text,
          toml.as_int-of_int _ port_word,
          port_eq,
        )
      ]
      | inr set ↦ simp (set, toml.as_text-of_text, toml.as_int-of_int _ port_word, port_eq)
    ]

    pub identity_written :
        (u : IdentityConfig)
        → u.key_file ≡ []
        → u.password ≡ []
        → IsText (old (codes "key_file"))
        → IsText (old (codes "password"))
        → read_keys
            (λ k. or_else (latest k (identity_values toml cfg.identity)) (old k))
            (identity_reads toml)
            u
          ≡ done (record cfg.identity {
            key_file =
                if is_empty cfg.identity.key_file
                then text_of (old (codes "key_file"))
                else cfg.identity.key_file;
            password = text_of (old (codes "password"));
          })
    unfolding text_eq
    identity_written u e f k (inl no_password) =
        elim (Bool-cases (is_empty cfg.identity.key_file)) [
          | inl none_set ↦ elim k [
            | inl missing ↦ simp (none_set, no_password, missing, e, f, toml.as_text-of_text)
            | inr (v, x, found, is_text) ↦
                simp (none_set, no_password, found, is_text, f, toml.as_text-of_text)
          ]
          | inr set ↦ simp (set, no_password, f, toml.as_text-of_text)
        ]
    identity_written u e f k (inr (w, y, password, is_password)) =
        elim (Bool-cases (is_empty cfg.identity.key_file)) [
          | inl none_set ↦ elim k [
            | inl missing ↦ simp (none_set, password, is_password, missing, e, toml.as_text-of_text)
            | inr (v, x, found, is_text) ↦
                simp (none_set, password, is_password, found, is_text, toml.as_text-of_text)
          ]
          | inr set ↦ simp (set, password, is_password, toml.as_text-of_text)
        ]

  -- The document holds the settings of `cfg` on top of older entries.
  pub record HasSettings (cfg : ClientConfig Float) (old : Text → Text → Option Value) (d : Value)
      : Type 0 where
    pub ui_eq :
        (k : Text)
        → toml.entry (codes "ui") k d
          ≡ or_else (latest k (ui_values toml cfg.ui)) (old (codes "ui") k)
    pub voice_eq :
        (k : Text)
        → toml.entry (codes "voice") k d
          ≡ or_else (latest k (voice_values toml cfg.voice)) (old (codes "voice") k)
    pub preview_eq :
        (k : Text)
        → toml.entry (codes "preview") k d
          ≡ or_else (latest k (preview_values toml cfg.preview)) (old (codes "preview") k)
    pub tls_eq :
        (k : Text)
        → toml.entry (codes "tls") k d
          ≡ or_else (latest k (tls_values toml cfg.tls)) (old (codes "tls") k)
    pub connection_eq :
        (k : Text)
        → toml.entry (codes "connection") k d
          ≡ or_else (latest k (connection_values toml cfg.connection)) (old (codes "connection") k)
    pub notifications_eq :
        (k : Text)
        → toml.entry (codes "notifications") k d
          ≡ or_else
              (latest k (notification_values toml cfg.notifications))
              (old (codes "notifications") k)

  pub read_keys_eq :
      {S : Type 0} {at at' : Text → Option Value} (rs : List (Read Value S)) (u : S)
      → ((k : Text) → at k ≡ at' k)
      → read_keys at rs u ≡ read_keys at' rs u
  read_keys_eq rs u eq = ap (λ f. read_keys f rs u) (fun_ext eq)

  -- Then they are what is read.
  pub read_settings_written :
      (cfg c : ClientConfig Float) (old : Text → Text → Option Value) (d : Value)
      → AreInts cfg
      → HasSettings cfg old d
      → read_settings toml d c
        ≡ done (record cfg {
          server = c.server;
          identity = c.identity;
          config_dir = c.config_dir;
          db_path = c.db_path;
        })
  unfolding read_settings
  read_settings_written cfg c old d h s = rw (
    read_keys_eq (ui_reads toml) c.ui s.ui_eq ∙ ui_written cfg h (old (codes "ui")) c.ui,
    read_keys_eq (voice_reads toml) c.voice s.voice_eq
        ∙ voice_written cfg h (old (codes "voice")) c.voice,
    read_keys_eq (preview_reads toml) c.preview s.preview_eq
        ∙ preview_written cfg h (old (codes "preview")) c.preview,
    read_keys_eq (tls_reads toml) c.tls s.tls_eq ∙ tls_written cfg h (old (codes "tls")) c.tls,
    read_keys_eq (connection_reads toml) c.connection s.connection_eq
        ∙ connection_written cfg h (old (codes "connection")) c.connection,
    read_keys_eq (notification_reads toml) c.notifications s.notifications_eq
        ∙ notifications_written cfg h (old (codes "notifications")) c.notifications,
  )
