-- ===== src/App/Matching.antt =====
-- src/app.cpp: the answers to `join` meet the requests in the order of the requests.
use ircord_client.Base.{
  ℕ, suc, zero, All, ◌≡◌, refl, ◌∙◌, sym, ap, Bool, true, false, not, ◌&&◌, List, [], ◌∷◌, ◌++◌,
  if◌then◌else◌, is_empty, length, drop, Text, codes, text_eq, Bool-cases, inl, inr,
}
use mathlib.Core.List.{append-nil, append_assoc}
use ircord_client.Base.Assoc.{Assoc, or_default}
use ircord_client.AppState.{ChannelState, active_channel}
use ircord_client.Command.{lower}
use ircord_client.Handler.{Task, enters_channel, post_ui}
use ircord_client.App.{
  App, CommandResponse, join_response, report_response, handle_command_response, log_server_event,
  push_system_msg_to_channel,
}

abbrev pub enters : Task → List Text
enters (enters_channel id) = id ∷ []
enters _ = []

-- The channels that queued tasks enter.
abbrev pub entered : List Task → List Text
entered [] = []
entered (t ∷ ts) = enters t ++ entered ts

-- The requests that are answered with success, in order.
abbrev pub accepted : List Text → List CommandResponse → List Text
accepted [] rs = []
accepted (t ∷ ts) [] = []
accepted (t ∷ ts) (r ∷ rs) = if r.success then t ∷ accepted ts rs else accepted ts rs

entered-append : (ts us : List Task) → entered (ts ++ us) ≡ entered ts ++ entered us
entered-append [] us = refl
entered-append (t ∷ ts) us =
    ap (enters t ++◌) (entered-append ts us)
    ∙ sym (append_assoc (enters t) (entered ts) (entered us))

entered_quiet : (ts : List Task) (t : Task) → enters t ≡ [] → entered (ts ++ (t ∷ [])) ≡ entered ts
entered_quiet ts t e = entered-append ts (t ∷ []) ∙ rw e (append-nil (entered ts))

-- The command of an answer is compared in lower case.
abbrev pub IsJoin : CommandResponse → Type 0
IsJoin r = lower r.command ≡ codes "join"

-- What one answer takes of the requests.
abbrev taken : Bool → List Text → List Text
taken success [] = []
taken success (t ∷ ts) = if success then t ∷ [] else []

accepted-none : (ts : List Text) → accepted ts [] ≡ []
accepted-none [] = refl
accepted-none (t ∷ ts) = refl

taken-accepted :
    (r : CommandResponse) (rs : List CommandResponse) (ts : List Text)
    → taken r.success ts ++ accepted (drop 1 ts) rs ≡ accepted ts (r ∷ rs)
taken-accepted r rs [] = refl
taken-accepted r rs (t ∷ ts) = elim (Bool-cases r.success) [ inl e ↦ rw e refl | inr e ↦ rw e refl ]

drop_again : (n : ℕ) (ts : List Text) → drop n (drop 1 ts) ≡ drop (suc n) ts
drop_again zero [] = refl
drop_again (suc n) [] = refl
drop_again n (t ∷ ts) = refl

module _ {ℓ} {C : Type ℓ} (first : Assoc ChannelState → Text) (now : ℕ) where
  -- Answers, one after the other.
  abbrev pub answered : List CommandResponse → App C → App C
  answered [] a = a
  answered (r ∷ rs) a = answered rs (handle_command_response first now r a).0

  -- The log of an answer enters no channel and keeps the requests.
  pub logged-entered :
      (r : CommandResponse) (command : Text) (a : App C)
      → (entered (report_response first now command r a).handler.ui_queue
          ≡ entered a.handler.ui_queue)
        × ((report_response first now command r a).pending_joins ≡ a.pending_joins)
  unfolding report_response log_server_event push_system_msg_to_channel post_ui
  logged-entered r command a =
      let ch = or_default [] (active_channel a.handler.state) in
      elim (Bool-cases
        (not r.success && (not (is_empty ch) && not (text_eq ch (codes "server"))))) [
          | inl e ↦ rw e (
            entered_quiet (a.handler.ui_queue ++ (_ ∷ [])) _ refl
                ∙ entered_quiet a.handler.ui_queue _ refl,
            refl,
          )
          | inr e ↦ rw e (entered_quiet a.handler.ui_queue _ refl, refl)
        ]

  -- A join that is answered, with `ts` waiting.
  joined :
      (success : Bool) (ts : List Text) (a : App C)
      → a.pending_joins ≡ ts
      → let b = join_response first now success a in
        (entered b.handler.ui_queue ≡ entered a.handler.ui_queue ++ taken success ts)
        × (b.pending_joins ≡ drop 1 ts)
  unfolding join_response post_ui
  joined success [] a e = rw (e, join_response) (sym (append-nil _), refl)
  joined true (t ∷ ts) a e = rw (e, join_response) (entered-append a.handler.ui_queue _, refl)
  joined false (t ∷ ts) a e = rw (e, join_response) (sym (append-nil _), refl)

  one_answer :
      (r : CommandResponse) (ts : List Text) (a : App C)
      → IsJoin r
      → a.pending_joins ≡ ts
      → let b = (handle_command_response first now r a).0 in
        (entered b.handler.ui_queue ≡ entered a.handler.ui_queue ++ taken r.success ts)
        × (b.pending_joins ≡ drop 1 ts)
  unfolding handle_command_response text_eq
  one_answer r ts a j e =
      let (same, waits) = logged-entered r (codes "join") a in
      let (q, p) = joined r.success ts (report_response first now (codes "join") r a) (waits ∙ e) in
      rw (j, handle_command_response) (q ∙ ap (◌++ taken r.success ts) same, p)

  in_order :
      (rs : List CommandResponse) (ts : List Text) (a : App C)
      → a.pending_joins ≡ ts
      → All IsJoin rs
      → (entered (answered rs a).handler.ui_queue ≡ entered a.handler.ui_queue ++ accepted ts rs)
        × ((answered rs a).pending_joins ≡ drop (length rs) ts)
  in_order [] ts a e h =
      (sym (append-nil _) ∙ ap (entered a.handler.ui_queue ++◌) (sym (accepted-none ts)), e)
  in_order (r ∷ rs) ts a e h =
      let (q, p) = one_answer r ts a h.0 e in
      let (q', p') = in_order rs (drop 1 ts) (handle_command_response first now r a).0 p h.1 in
      (
        q'
            ∙ ap (◌++ accepted (drop 1 ts) rs) q
            ∙ append_assoc (entered a.handler.ui_queue) (taken r.success ts)
                (accepted (drop 1 ts) rs)
            ∙ ap (entered a.handler.ui_queue ++◌) (taken-accepted r rs ts),
        p' ∙ drop_again (length rs) ts,
      )

  -- Answers to `join` meet the requests in their order: those that succeed enter exactly the channels
  -- that were asked for, in order, and the answered requests no longer wait.
  pub answered-accepted :
      (rs : List CommandResponse) (a : App C)
      → All IsJoin rs
      → (entered (answered rs a).handler.ui_queue
          ≡ entered a.handler.ui_queue ++ accepted a.pending_joins rs)
        × ((answered rs a).pending_joins ≡ drop (length rs) a.pending_joins)
  answered-accepted rs a h = in_order rs a.pending_joins a refl h
