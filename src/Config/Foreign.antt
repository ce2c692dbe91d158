-- ===== src/Config/Foreign.antt =====
-- src/config.cpp: the entries of a file that the client does not know.
use ircord_client.Base.{
  ◌≡◌, ◌≢◌, refl, ◌∙◌, sym, ap, subst, Bool, true, false, ◌&&◌, ◌||◌, none, some, List, [], ◌∷◌,
  is_empty, is_among, Text, codes, text_eq, text_eq_iff, Bool-cases, inl, inr,
}
use ircord_client.Base.Assoc.{Assoc}
use ircord_client.Config.Types.{ClientConfig}
use ircord_client.Config.TomlLibrary.{Toml}
use ircord_client.Config.FileSystem.{Files}
use ircord_client.Config.Values.{saved_values}
use ircord_client.Config.Patches.{or_else, latest, written, Admits}
use ircord_client.Config.RoundTrip.{stored}
use ircord_client.Config.{parse_file, existing_data, save_config}

-- The keys of a configuration that may be saved, by section.
abbrev pub known_keys : List (Text × List Text)
known_keys =
    (codes "server", codes "host" ∷ codes "port" ∷ codes "cert_pin" ∷ [])
    ∷ (codes "identity", codes "user_id" ∷ codes "key_file" ∷ [])
    ∷ (
      codes "ui",
      codes "theme"
          ∷ codes "timestamp_format"
          ∷ codes "max_messages"
          ∷ codes "font_scale"
          ∷ codes "show_timestamps"
          ∷ codes "show_user_colors"
          ∷ codes "user_list_width"
          ∷ codes "user_list_collapsed"
          ∷ [],
    )
    ∷ (
      codes "voice",
      codes "input_device"
          ∷ codes "output_device"
          ∷ codes "opus_bitrate"
          ∷ codes "frame_ms"
          ∷ codes "mode"
          ∷ codes "ptt_key"
          ∷ codes "vad_threshold"
          ∷ codes "ice_servers"
          ∷ codes "turn_username"
          ∷ codes "turn_password"
          ∷ [],
    )
    ∷ (codes "preview", codes "enabled" ∷ codes "fetch_timeout" ∷ codes "max_cache" ∷ [])
    ∷ (codes "tls", codes "verify_peer" ∷ [])
    ∷ (
      codes "connection",
      codes "auto_reconnect" ∷ codes "reconnect_delay_sec" ∷ codes "timeout_sec" ∷ [],
    )
    ∷ (
      codes "notifications",
      codes "desktop_notifications"
          ∷ codes "sound_alerts"
          ∷ codes "notify_on_mention"
          ∷ codes "notify_on_dm"
          ∷ codes "mention_keywords"
          ∷ [],
    )
    ∷ []

abbrev pub is_known : Text → Text → List (Text × List Text) → Bool
is_known s k [] = false
is_known s k ((section, ks) ∷ ss) = (text_eq section s && is_among k ks) || is_known s k ss

both : (a b : Bool) → (a && b) ≡ true → (a ≡ true) × (b ≡ true)
both true b h = (refl, h)
both false b h = absurd (cc h)

neither : (a b : Bool) → (a || b) ≡ false → (a ≡ false) × (b ≡ false)
neither true b h = absurd (cc h)
neither false b h = (refl, h)

module _ {ℓ} {V : Type ℓ} where
  abbrev keys_in : List Text → Assoc V → Bool
  keys_in ks [] = true
  keys_in ks ((k, v) ∷ vs) = is_among k ks && keys_in ks vs

  -- The assignments are to known keys, section by section.
  abbrev within : List (Text × Assoc V) → List (Text × List Text) → Bool
  within [] ns = true
  within (s ∷ ss) [] = false
  within ((section, vs) ∷ ss) ((name, ks) ∷ ns) =
      (text_eq section name && keys_in ks vs) && within ss ns

  latest-none :
      (ks : List Text) (vs : Assoc V) (k : Text)
      → keys_in ks vs ≡ true
      → is_among k ks ≡ false
      → latest k vs ≡ none
  latest-none ks [] k h other = refl
  latest-none ks ((j, v) ∷ vs) k h other =
      let (mine, rest) = both (is_among j ks) (keys_in ks vs) h in
      elim (Bool-cases (text_eq j k)) [
        | inl e ↦
            let here = subst (λ x. is_among x ks ≡ true) ((text_eq_iff j k).0 e) mine in
            absurd (cc (here, other))
        | inr e ↦ rw (latest-none ks vs k rest other, e) refl
      ]

  written-none :
      (ss : List (Text × Assoc V)) (ns : List (Text × List Text)) (s k : Text)
      → within ss ns ≡ true
      → is_known s k ns ≡ false
      → written s k ss ≡ none
  written-none [] ns s k h other = refl
  written-none (x ∷ ss) [] s k h other = absurd (cc h)
  written-none ((section, vs) ∷ ss) ((name, ks) ∷ ns) s k h other =
      let (first, rest) = both (text_eq section name && keys_in ks vs) (within ss ns) h in
      let (same, keys) = both (text_eq section name) (keys_in ks vs) first in
      let (not_here, later) = neither (text_eq name s && is_among k ks) (is_known s k ns) other in
      elim (Bool-cases (text_eq section s)) [
        | inl e ↦
            let named = subst (λ x. text_eq x s ≡ true) ((text_eq_iff section name).0 same) e in
            let foreign = subst (λ b. (b && is_among k ks) ≡ false) named not_here in
            rw (written-none ss ns s k rest later, e, latest-none ks vs k keys foreign) refl
        | inr e ↦ rw (written-none ss ns s k rest later, e) refl
      ]

module _ {Value Float Disk : Type 0} (toml : Toml Value Float) (files : Files Disk) where
  saved-within : (cfg : ClientConfig Float) → within (saved_values toml cfg) known_keys ≡ true
  unfolding text_eq
  saved-within cfg = elim (Bool-cases (is_empty cfg.server.cert_pin)) [
    | inl p ↦ elim (Bool-cases (is_empty cfg.identity.key_file)) [
      | inl f ↦ rw (p, f) refl
      | inr f ↦ rw (p, f) refl
    ]
    | inr p ↦ elim (Bool-cases (is_empty cfg.identity.key_file)) [
      | inl f ↦ rw (p, f) refl
      | inr f ↦ rw (p, f) refl
    ]
  ]

  -- A save over a file that can be parsed and whose sections are tables, to a path that can be
  -- written, leaves each entry that is not a key of the configuration as it was in that file.
  pub save_config-foreign :
      (cfg : ClientConfig Float) (path : Text) (disk : Disk) (old : Value) (s k : Text)
      → is_empty path ≡ false
      → files.exists path disk ≡ true
      → parse_file toml files path disk ≡ some old
      → Admits toml (saved_values toml cfg) old
      → ((t : Text) → files.write path t disk ≢ none)
      → is_known s k known_keys ≡ false
      → (disk' : Disk) × (d : Value) × (save_config toml files cfg path disk ≡ some disk')
        × (parse_file toml files path disk' ≡ some d)
        × (toml.entry s k d ≡ toml.entry s k old)
  unfolding save_config
  save_config-foreign cfg path disk old s k named there parsed admitted writable other =
      let now = existing_data toml files path disk in
      let same : now ≡ old = rw (named, there, parsed) refl in
      let (d, disk', d', assigned, wrote, exists', read, entries) =
        stored toml files (saved_values toml cfg) now path disk
          (subst (λ x. Admits toml (saved_values toml cfg) x) (sym same) admitted) writable in
      let unwritten =
        written-none (saved_values toml cfg) known_keys s k (saved-within cfg) other in
      (
        disk',
        d',
        rw (assigned, save_config) (rw wrote refl),
        read,
        entries s k
            ∙ ap (λ o. or_else o (toml.entry s k now)) unwritten
            ∙ ap (λ x. toml.entry s k x) same,
      )
