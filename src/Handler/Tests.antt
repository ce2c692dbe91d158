-- ===== src/Handler/Tests.antt =====
-- Runs of the message handler with an engine that encrypts nothing, and each theorem at an input that
-- meets its hypotheses.
use ircord_client.Base.{
  ℕ, ◌≡◌, refl, true, false, none, some, List, [], ◌∷◌, ◌++◌, map, Text, codes, arith, text_eq,
}
use ircord_client.Base.Assoc.{lookup, insert, adjust, map_values}
use ircord_client.AppState.{
  new as new_state, channel_snapshot, max_messages, push_message, ensure_channel, set_presence,
  receive, push_bounded,
}
use ircord_client.AppState.Window.{window}
use ircord_client.Handler.{
  key_timeout, Handler, Engine, ChatEnvelope, KeyBundle, Step, handle_key_bundle, drain_ui_queue,
  steps, step, comes, asks, drains, ping, presence_comes, wire_away, key_request, dispatch,
  handle_presence, post_ui, run_task, push_system,
}
use ircord_client.Handler.Pending.{requests, outs, made, bundle-requests, timeout-requests}
use ircord_client.Handler.Ordering.{chats, messages_of, held, drain-chats}
use ircord_client.Handler.Sequence.{IsNumbered, steps-IsNumbered}

-- Plain texts; the state counts the envelopes made.
abbrev plain : Engine ℕ
plain = record {
  sign_challenge = λ n nonce. nonce;
  prepare_key_upload = λ n. ([], n);
  decrypt = λ n c. (some c.ciphertext, n);
  on_key_bundle = λ b who n. n;
  encrypt = λ n from to text. (
    some (record { sender_id = from; recipient_id = to; ciphertext = text; ciphertext_type = 1 }),
    n,
  );
}

abbrev me : Text
me = codes "me"

abbrev fresh : Handler ℕ
fresh = record {
  authenticated = false;
  next_seq = 1;
  pending = [];
  crypto = 0;
  state = new_state;
  ui_queue = [];
  sent = [];
  persisted = [];
  responses = [];
  voice_calls = [];
  has_net = true;
  has_voice = false;
  has_persist = false;
  has_response_fn = false;
}

abbrev bundle : KeyBundle
bundle = record { recipient_for = codes "bob"; keys = [] }

bundle-requests_example :
    let g =
      handle_key_bundle plain me [] 5
        (some bundle)
        (requests (codes "bob") (codes "a" ∷ codes "b" ∷ []) fresh) in
    (outs g
      ≡ outs fresh
        ++ (key_request (codes "bob") ∷ made plain me (codes "bob") (codes "a" ∷ codes "b" ∷ []) 0))
    × (lookup (codes "bob") g.pending ≡ none)
unfolding lookup
bundle-requests_example =
    bundle-requests plain me [] 5 bundle (codes "a") (codes "b" ∷ []) fresh refl refl refl

timeout-requests_example :
    let g = key_timeout 5 (codes "bob") (requests (codes "bob") (codes "a" ∷ []) fresh) in
    (outs g ≡ outs fresh ++ (key_request (codes "bob") ∷ []))
    × (lookup (codes "bob") g.pending ≡ none)
unfolding lookup
timeout-requests_example = timeout-requests 5 (codes "bob") (codes "a") [] fresh refl refl

abbrev line : Text → ChatEnvelope
line text = record {
  sender_id = codes "bob";
  recipient_id = codes "#dev";
  ciphertext = text;
  ciphertext_type = 1;
}

abbrev two : List (ℕ × ChatEnvelope)
two = (3, line (codes "x")) ∷ (4, line (codes "y")) ∷ []

drain-chats_example :
    (channel_snapshot
      (codes "#dev")
      (drain_ui_queue 9 (chats plain me [] 8 two fresh)).state).messages
    ≡ window max_messages
        ((channel_snapshot (codes "#dev") fresh.state).messages ++ messages_of plain me [] 8 0 two)
unfolding channel_snapshot lookup
drain-chats_example =
    drain-chats plain me [] 8 (codes "#dev") 9 two fresh refl (refl, (refl, tt)) (omega arith)

abbrev events : List (ℕ × Step)
events = (1, comes ping) ∷ (2, asks (codes "bob") (codes "a")) ∷ (3, drains) ∷ []

steps-IsNumbered_example : IsNumbered (steps plain me [] events fresh)
steps-IsNumbered_example = steps-IsNumbered plain me [] events fresh (omega arith)

abbrev away_events : List (ℕ × Step)
away_events =
    (1, comes (presence_comes (some (codes "bob", wire_away)))) ∷ (2, drains) ∷ (3, drains) ∷ []

-- Someone who is away is announced as offline.
away_text :
    map (λ m. m.content) (held (codes "server") (steps plain me [] away_events fresh).state)
    ≡ codes "bob went offline" ∷ []
unfolding channel_snapshot lookup step dispatch handle_presence post_ui drain_ui_queue run_task
    push_system set_presence push_message ensure_channel receive push_bounded insert map_values
    adjust text_eq
away_text = refl
