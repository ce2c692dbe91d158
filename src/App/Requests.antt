-- ===== src/App/Requests.antt =====
-- src/app.cpp: the requests to join and to leave channels that wait for an answer.
use ircord_client.Base.{
  ℕ, ◌≡◌, refl, sym, ap, subst, Bool, true, false, ◌||◌, some, List, [], ◌∷◌, ◌++◌, is_empty, Text,
  codes, text_eq, arith, Bool-cases, Option-cases, inl, inr, ◌⊎◌, All, All-append, text_eq_sym,
}
use ircord_client.Base.Assoc.{or_default}
use ircord_client.AppState.{active_channel}
use ircord_client.Command.{lower}
use ircord_client.Handler.{Task, post_ui}
use ircord_client.App.Gate.{wire}
use ircord_client.App.Sanitize.{IsChannelName, sanitize_channel_name-IsChannelName}
use ircord_client.App.{
  App, Call, tell, post, has_pending_command, sanitize_channel_name, is_server_channel,
  push_system_msg, push_system_msg_to_channel, log_server_event, part_command, join_command,
}

-- No request twice.
abbrev pub IsDistinct : List Text → Type 0
IsDistinct [] = Unit
IsDistinct (t ∷ ts) = (has_pending_command ts t ≡ false) × IsDistinct ts

has_pending_command-append :
    (ts : List Text) (t u : Text)
    → has_pending_command (ts ++ (t ∷ [])) u ≡ (has_pending_command ts u || text_eq t u)
unfolding has_pending_command
has_pending_command-append [] t u = ground arith
has_pending_command-append (s ∷ ts) t u = ground (arith, has_pending_command-append ts t u)

append-IsDistinct :
    (ts : List Text) (t : Text)
    → has_pending_command ts t ≡ false
    → IsDistinct ts
    → IsDistinct (ts ++ (t ∷ []))
unfolding has_pending_command
append-IsDistinct [] t h d = (refl, tt)
append-IsDistinct (s ∷ ts) t h d = (
  ground (arith, has_pending_command-append ts t s, text_eq_sym s t),
  append-IsDistinct ts t (ground arith) d.1,
)

server-is_server_channel : is_server_channel (codes "server") ≡ true
unfolding is_server_channel lower text_eq
server-is_server_channel = refl

pub target_name :
    (raw target : Text)
    → sanitize_channel_name raw ≡ some target
    → is_server_channel target ≡ false
    → IsChannelName target
target_name raw target e other = named (sanitize_channel_name-IsChannelName raw target e).0 other
  where
    named :
        {n : Text}
        → (n ≡ codes "server") ⊎ IsChannelName n
        → is_server_channel n ≡ false
        → IsChannelName n
    named (inl tab) other = absurd (cc (ap is_server_channel tab, server-is_server_channel, other))
    named (inr name) other = name

-- What waits is there once, and is the name of a channel where it is to be joined.
pub record AreRequests (joins parts : List Text) : Type 0 where
  pub joins_once : IsDistinct joins
  pub parts_once : IsDistinct parts
  pub joins_named : All IsChannelName joins

module _ {ℓ} {C : Type ℓ} where
  unfoldable pub Asks : App C → Type 0
  Asks a = AreRequests a.pending_joins a.pending_parts

  pub wire-Asks : (a b : App C) → wire b ≡ wire a → Asks a → Asks b
  unfolding Asks wire
  wire-Asks a b e h = subst (λ w. AreRequests w.2 w.3) (sym e) h

  pub told : (now : ℕ) (text : Text) (a : App C) → Asks a → Asks (push_system_msg now text a)
  unfolding Asks push_system_msg push_system_msg_to_channel post_ui
  told now text a h = h

  pub logged :
      (now : ℕ) (text : Text) (on : Bool) (a : App C)
      → Asks a
      → Asks (log_server_event now text on a)
  unfolding Asks log_server_event push_system_msg_to_channel post_ui
  logged now text on a h = h

  pub telling : (call : Call) (a : App C) → Asks a → Asks (tell call a)
  unfolding Asks
  telling call a h = h

  pub posting : (task : Task) (a : App C) → Asks a → Asks (post task a)
  unfolding Asks post_ui
  posting task a h = h

  pub part_command-Asks : (now : ℕ) (a : App C) → Asks a → Asks (part_command now a)
  unfolding Asks part_command push_system_msg push_system_msg_to_channel log_server_event post_ui
  part_command-Asks now a h =
      let ch = or_default [] (active_channel a.handler.state) in
      elim (Bool-cases (is_empty ch || is_server_channel ch)) [
        | inl e ↦ rw e h
        | inr e ↦ elim (Bool-cases (has_pending_command a.pending_parts ch)) [
          | inl there ↦ rw (e, there) h
          | inr free ↦
              rw (e, free)
                (record {
                  joins_once = h.joins_once;
                  parts_once = append-IsDistinct a.pending_parts ch free h.parts_once;
                  joins_named = h.joins_named;
                })
        ]
      ]

  pub join_command-Asks :
      (now : ℕ) (raw : Text) (a : App C) → Asks a → Asks (join_command now raw a)
  unfolding Asks join_command push_system_msg push_system_msg_to_channel log_server_event post_ui
  join_command-Asks now raw a h = elim (Option-cases (sanitize_channel_name raw)) [
    | inl e ↦ rw (e, join_command) h
    | inr (target, e) ↦ elim (Bool-cases (is_server_channel target)) [
      | inl tab ↦ rw (e, join_command) (rw (tab, join_command) h)
      | inr other ↦ elim (Bool-cases (has_pending_command a.pending_joins target)) [
        | inl there ↦ rw (e, join_command) (rw (other, join_command) (rw (there, join_command) h))
        | inr free ↦
            rw (e, join_command)
              (rw (other, join_command)
                (rw (free, join_command)
                  (record {
                    parts_once = h.parts_once;
                    joins_once = append-IsDistinct a.pending_joins target free h.joins_once;
                    joins_named =
                        All-append IsChannelName a.pending_joins (target ∷ []) h.joins_named
                          (target_name raw target e other, tt);
                  })))
      ]
    ]
  ]
