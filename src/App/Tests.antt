-- ===== src/App/Tests.antt =====
-- Runs of the application, and each theorem at an input that meets its hypotheses.
use ircord_client.Base.{
  ℕ, ◌≡◌, refl, ◌⊎◌, inl, Bool, true, false, not, is_empty, if◌then◌else◌, none, some, List, [],
  ◌∷◌, ◌++◌, map, drop, Text, codes,
}
use ircord_client.Base.Assoc.{Assoc, contains, or_default}
use ircord_client.AppState.{
  AppState, ChannelState, new_channel, ChannelUserInfo, admin, voice, regular, active_channel,
}
use ircord_client.Command.{lower}
use ircord_client.Handler.{Engine, drain_ui_queue, command}
use ircord_client.App.Gate.{wire, on_submit-wire}
use ircord_client.App.Sanitize.{IsChannelName, sanitize_channel_name-IsChannelName}
use ircord_client.App.Requests.{AreRequests}
use ircord_client.App.Answered.{on_events-Asks}
use ircord_client.App.Matching.{answered, accepted, entered, answered-accepted}
use ircord_client.App.UserList.{names_text, parse_names-names_text}
use ircord_client.App.Joining.{join_command-enters}
use ircord_client.App.Delivered.{Delivers, send_chat-Delivers}
use ircord_client.App.{
  App, World, cancelled, CommandResponse, Event, submits, answers, on_submit, on_events,
  sanitize_channel_name, sanitized, trim_ascii_whitespace, is_server_channel, canonical_channel_id,
  parse_names, find_header, get_lines, info_of, join_command, handle_command_response, send_chat,
}

abbrev engine : Engine Bool
engine = record {
  sign_challenge = λ c nonce. nonce;
  prepare_key_upload = λ c. (codes "keys", c);
  decrypt = λ c e. (some e.ciphertext, c);
  on_key_bundle = λ b user c. true;
  encrypt = λ c sender recipient text. (
    if c
        then some (record {
          sender_id = sender;
          recipient_id = recipient;
          ciphertext = text;
          ciphertext_type = 2;
        })
        else none,
    c,
  );
}

abbrev world : World Bool
world = record {
  version = codes "1.0";
  help = false;
  help_get = λ t. none;
  help_topics = [];
  store = true;
  search_messages = λ q. [];
  in_voice = false;
  voice_mode = codes "ptt";
  safety_number = λ p. codes "0";
  peer_identity = λ p. none;
  previewer = false;
  urls = λ t. [];
  needs_key = λ c p. not c;
  settings = cancelled;
}

abbrev state : AppState
state = record {
  channels = (codes "server", new_channel) ∷ (codes "bob", new_channel) ∷ [];
  active = codes "bob";
  presences = [];
  voice = record {
    in_voice = false;
    muted = false;
    deafened = false;
    active_channel = [];
    participants = [];
    speaking_peers = [];
    voice_mode = [];
  };
  members = [];
  voice_statuses = [];
  is_connected = true;
  local_user = codes "ann";
  results = [];
}

-- An application that is authenticated or not, with or without the key of its peer.
abbrev app : Bool → Bool → App Bool
app authenticated has_key = record {
  handler = record {
    authenticated = authenticated;
    next_seq = 1;
    pending = [];
    crypto = has_key;
    state = state;
    ui_queue = [];
    sent = [];
    persisted = [];
    responses = [];
    voice_calls = [];
    has_net = true;
    has_voice = false;
    has_persist = true;
    has_response_fn = true;
  };
  user_id = codes "ann";
  server_version = codes "unknown";
  net_connected = true;
  pending_joins = [];
  pending_parts = [];
  attempt_started = none;
  should_exit = false;
  calls = [];
}

abbrev first : Assoc ChannelState → Text
first m = []

abbrev joined_ok : CommandResponse
joined_ok = record { command = codes "JOIN"; success = true; message = codes "welcome" }

joined_ok-IsJoin : lower joined_ok.command ≡ codes "join"
unfolding lower
joined_ok-IsJoin = refl

on_submit-wire_example :
    wire (on_submit engine world 7 (codes "/join dev") (app false false)) ≡ wire (app false false)
on_submit-wire_example = on_submit-wire engine world 7 (codes "/join dev") (app false false) refl

dev_sanitized : sanitize_channel_name (codes " dev ") ≡ some (codes "#dev")
unfolding sanitize_channel_name sanitized trim_ascii_whitespace is_server_channel
dev_sanitized = refl

not_server : is_server_channel (codes "#dev") ≡ false
unfolding is_server_channel
not_server = refl

sanitize_channel_name-IsChannelName_example :
    ((codes "#dev" ≡ codes "server") ⊎ IsChannelName (codes "#dev"))
    × (sanitize_channel_name (codes "#dev") ≡ some (codes "#dev"))
sanitize_channel_name-IsChannelName_example =
    sanitize_channel_name-IsChannelName (codes " dev ") (codes "#dev") dev_sanitized

-- Two requests for the same channel, an answer, and a loss of the connection.
abbrev events : List (ℕ × Event)
events =
    (1, submits (codes "/join dev"))
    ∷ (2, submits (codes "/join #dev"))
    ∷ (3, submits (codes "/join ops"))
    ∷ (4, answers joined_ok)
    ∷ []

on_events-Asks_example :
    AreRequests
      (on_events engine world [] first events (app true true)).pending_joins
      (on_events engine world [] first events (app true true)).pending_parts
on_events-Asks_example =
    on_events-Asks engine world [] first events (app true true)
      (record { joins_once = tt; parts_once = tt; joins_named = tt })

abbrev two_wait : App Bool
two_wait = record (app true true) { pending_joins = codes "#dev" ∷ codes "#ops" ∷ [] }

answered-accepted_example :
    (entered (answered first 5 (joined_ok ∷ []) two_wait).handler.ui_queue
      ≡ entered two_wait.handler.ui_queue ++ accepted two_wait.pending_joins (joined_ok ∷ []))
    × ((answered first 5 (joined_ok ∷ []) two_wait).pending_joins ≡ drop 1 two_wait.pending_joins)
answered-accepted_example =
    answered-accepted first 5 (joined_ok ∷ []) two_wait (joined_ok-IsJoin, tt)

abbrev users : List ChannelUserInfo
users =
    info_of admin (codes "ann") ∷ info_of voice (codes "bob") ∷ info_of regular (codes "cid") ∷ []

parse_names-names_text_example :
    parse_names (names_text (codes "#dev") users)
    ≡ some (some (codes "#dev", map (λ u. info_of u.role u.user_id) users))
parse_names-names_text_example =
    parse_names-names_text (codes "#dev") users (refl, (refl, (refl, (refl, tt))))
      (
        (refl, (refl, (refl, (refl, tt)))),
        ((refl, (refl, (refl, (refl, tt)))), ((refl, (refl, (refl, (refl, tt)))), tt)),
      )

-- A short header ends in an exception.
short_header : parse_names (codes "a:" ++ (10 ∷ [])) ≡ some none
unfolding parse_names find_header get_lines
short_header = refl

join_command-enters_example :
    ((join_command 7 (codes " dev ") (app true true)).handler.sent
      ≡ (1, command (codes "join") (codes "#dev" ∷ [])) ∷ [])
    × ((active_channel
            (drain_ui_queue 9
              (handle_command_response first 8 joined_ok
                (join_command 7 (codes " dev ") (app true true))).0.handler).state
          ≡ some (codes "#dev"))
        × (contains
              (codes "#dev")
              (drain_ui_queue 9
                (handle_command_response first 8 joined_ok
                  (join_command 7 (codes " dev ") (app true true))).0.handler).state.channels
            ≡ true))
join_command-enters_example =
    join_command-enters first 8 7 9 (codes " dev ") (codes "#dev") joined_ok (app true true)
      dev_sanitized not_server refl joined_ok-IsJoin refl

bob_named : is_empty (canonical_channel_id (or_default [] (active_channel state))) ≡ false
unfolding canonical_channel_id is_server_channel active_channel
bob_named = refl

bob_not_server :
    is_server_channel (canonical_channel_id (or_default [] (active_channel state))) ≡ false
unfolding canonical_channel_id is_server_channel active_channel
bob_not_server = refl

send_chat-Delivers_example :
    Delivers engine world
      (codes "ann")
      (canonical_channel_id (or_default [] (active_channel state)))
      (codes "hi")
      false
      (send_chat engine world 7 (codes "hi") (app true false))
send_chat-Delivers_example =
    send_chat-Delivers engine world 7 (codes "hi") (app true false) refl bob_named bob_not_server
      (inl refl)
