-- ===== src/Config/Types.antt =====
-- The structures of src/config.hpp with their defaults. A path is a text. An `int` is its word of 32
-- bits; `Float` is the type of a `float`, of which the code only moves values.
use ircord_client.Base.{ℕ, ◌<◌, ◌^◌, Bool, true, false, List, [], Text, codes}

pub record ServerConfig : Type 0 where
  pub host : Text
  pub port : ℕ
  pub cert_pin : Text

pub record IdentityConfig : Type 0 where
  pub user_id : Text
  pub key_file : Text
  pub password : Text

pub record UiConfig : Type 0 where
  pub theme : Text
  pub timestamp_format : Text
  pub max_messages : ℕ
  pub font_scale : ℕ
  pub show_timestamps : Bool
  pub show_user_colors : Bool
  pub user_list_width : ℕ
  pub user_list_collapsed : Bool

pub record VoiceConfig (Float : Type 0) : Type 0 where
  pub input_device : Text
  pub output_device : Text
  pub opus_bitrate : ℕ
  pub frame_ms : ℕ
  pub mode : Text
  pub ptt_key : Text
  pub vad_threshold : Float
  pub ice_servers : List Text
  pub turn_username : Text
  pub turn_password : Text

pub record PreviewConfig : Type 0 where
  pub enabled : Bool
  pub fetch_timeout : ℕ
  pub max_cache : ℕ

pub record TlsConfig : Type 0 where
  pub verify_peer : Bool

pub record ConnectionConfig : Type 0 where
  pub auto_reconnect : Bool
  pub reconnect_delay_sec : ℕ
  pub timeout_sec : ℕ

pub record NotificationConfig : Type 0 where
  pub desktop_notifications : Bool
  pub sound_alerts : Bool
  pub notify_on_mention : Bool
  pub notify_on_dm : Bool
  pub mention_keywords : Text

pub record ClientConfig (Float : Type 0) : Type 0 where
  pub server : ServerConfig
  pub identity : IdentityConfig
  pub ui : UiConfig
  pub voice : VoiceConfig Float
  pub preview : PreviewConfig
  pub tls : TlsConfig
  pub connection : ConnectionConfig
  pub notifications : NotificationConfig
  pub config_dir : Text
  pub db_path : Text

-- `ClientConfig cfg;`, where `threshold` is the float 0.02f.
abbrev pub default_config : {Float : Type 0} → Float → ClientConfig Float
default_config threshold = record {
  server = record { host = codes "localhost"; port = 6667; cert_pin = [] };
  identity = record { user_id = codes "user"; key_file = []; password = [] };
  ui = record {
    theme = codes "tokyo-night";
    timestamp_format = codes "%H:%M";
    max_messages = 1000;
    font_scale = 100;
    show_timestamps = true;
    show_user_colors = true;
    user_list_width = 20;
    user_list_collapsed = false;
  };
  voice = record {
    input_device = [];
    output_device = [];
    opus_bitrate = 64000;
    frame_ms = 20;
    mode = codes "ptt";
    ptt_key = codes "F1";
    vad_threshold = threshold;
    ice_servers = [];
    turn_username = [];
    turn_password = [];
  };
  preview = record { enabled = true; fetch_timeout = 5; max_cache = 200 };
  tls = record { verify_peer = true };
  connection = record { auto_reconnect = true; reconnect_delay_sec = 5; timeout_sec = 30 };
  notifications = record {
    desktop_notifications = true;
    sound_alerts = true;
    notify_on_mention = true;
    notify_on_dm = true;
    mention_keywords = [];
  };
  config_dir = [];
  db_path = [];
}

-- The numbers are those of their C++ types.
pub record AreInts {Float : Type 0} (cfg : ClientConfig Float) : Type 0 where
  pub port_lt : cfg.server.port < 2 ^ 16
  pub max_messages_lt : cfg.ui.max_messages < 2 ^ 32
  pub font_scale_lt : cfg.ui.font_scale < 2 ^ 32
  pub user_list_width_lt : cfg.ui.user_list_width < 2 ^ 32
  pub opus_bitrate_lt : cfg.voice.opus_bitrate < 2 ^ 32
  pub frame_ms_lt : cfg.voice.frame_ms < 2 ^ 32
  pub fetch_timeout_lt : cfg.preview.fetch_timeout < 2 ^ 32
  pub max_cache_lt : cfg.preview.max_cache < 2 ^ 32
  pub reconnect_delay_sec_lt : cfg.connection.reconnect_delay_sec < 2 ^ 32
  pub timeout_sec_lt : cfg.connection.timeout_sec < 2 ^ 32
