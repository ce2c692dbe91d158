-- ===== src/Handler/Pending.antt =====
-- Messages that wait for a key: one request, and all of them sent in order when the keys come.
use ircord_client.Base.{
  ℕ, ◌≡◌, refl, ap, sym, ◌∙◌, true, false, Option, none, some, List, [], ◌∷◌, ◌++◌, map, Text, ltb,
  inl, inr, Bool-cases, Option-cases, is_empty, text_eq_refl,
}
use mathlib.Core.List.{append-nil, append_assoc}
use ircord_client.Base.Assoc.{lookup, erase, insert, lookup-insert, lookup-erase}
use ircord_client.Handler.{
  key_timeout, Handler, Engine, Outgoing, ChatEnvelope, KeyBundle, send_envelope, request_key,
  handle_key_bundle, flush, report_failed, push_system, post_ui, chat_envelope, key_request,
}

map_append :
    (xs ys : List (ℕ × Outgoing))
    → map (λ e. e.1) (xs ++ ys) ≡ map (λ e. e.1) xs ++ map (λ e. e.1) ys
map_append [] ys = refl
map_append (x ∷ xs) ys = ap (x.1 ∷◌) (map_append xs ys)

module _ {ℓ} {C : Type ℓ} where
  -- The application asks for the same recipient's key once for each of these texts.
  abbrev pub requests : Text → List Text → Handler C → Handler C
  requests recipient [] h = h
  requests recipient (p ∷ ps) h = requests recipient ps (request_key recipient p h)

  -- What was sent, without the sequence numbers.
  abbrev pub outs : Handler C → List Outgoing
  outs h = map (λ e. e.1) h.sent

  -- These texts wait for this recipient, and otherwise the handler is as `h` with this sent.
  abbrev pub IsWaiting : Text → List Text → List Outgoing → Handler C → Handler C → Type ℓ
  IsWaiting recipient ps sent h g =
      (lookup recipient g.pending ≡ some ps)
      × (outs g ≡ sent)
      × (g.crypto ≡ h.crypto)
      × (g.has_net ≡ true)

  send_envelope_lem :
      (out : Outgoing) (h : Handler C)
      → h.has_net ≡ true
      → (outs (send_envelope out h) ≡ outs h ++ (out ∷ []))
        × ((send_envelope out h).crypto ≡ h.crypto)
        × ((send_envelope out h).has_net ≡ true)
        × ((send_envelope out h).pending ≡ h.pending)
  unfolding send_envelope
  send_envelope_lem out h net = rw net (map_append h.sent _, refl, refl, refl)

  request_later :
      (recipient p : Text) (ps : List Text) (sent : List Outgoing) (h g : Handler C)
      → IsWaiting recipient ps sent h g
      → IsWaiting recipient (ps ++ (p ∷ [])) sent h (request_key recipient p g)
  unfolding request_key
  request_later recipient p ps sent h g w =
      rw (w.0, request_key) (rw (lookup-insert, text_eq_refl) refl, w.1, w.2, w.3)

  request_first :
      (recipient p : Text) (h : Handler C)
      → lookup recipient h.pending ≡ none
      → h.has_net ≡ true
      → IsWaiting recipient
          (p ∷ [])
          (outs h ++ (key_request recipient ∷ []))
          h
          (request_key recipient p h)
  unfolding request_key
  request_first recipient p h e net =
      let (o, c, n, q) =
        send_envelope_lem (key_request recipient)
          (record h { pending = insert recipient (p ∷ []) h.pending }) net in
      rw (e, request_key) (ap (lookup recipient) q ∙ rw (lookup-insert, text_eq_refl) refl, o, c, n)

  requests_later :
      (recipient : Text) (qs ps : List Text) (sent : List Outgoing) (h g : Handler C)
      → IsWaiting recipient ps sent h g
      → IsWaiting recipient (ps ++ qs) sent h (requests recipient qs g)
  requests_later recipient [] ps sent h g w =
      (w.0 ∙ ap (λ x. some x) (sym (append-nil ps)), w.1, w.2, w.3)
  requests_later recipient (q ∷ qs) ps sent h g w =
      let (found, o, c, n) =
        requests_later recipient qs (ps ++ (q ∷ [])) sent h (request_key recipient q g)
          (request_later recipient q ps sent h g w) in
      (found ∙ ap (λ x. some x) (append_assoc ps (q ∷ []) qs), o, c, n)

  timeout_lem :
      (now : ℕ) (recipient : Text) (ps : List Text) (g : Handler C)
      → lookup recipient g.pending ≡ some ps
      → (outs (key_timeout now recipient g) ≡ outs g)
        × (lookup recipient (key_timeout now recipient g).pending ≡ none)
  unfolding key_timeout push_system post_ui
  timeout_lem now recipient ps g waits =
      rw (waits, key_timeout) (refl, rw (lookup-erase, text_eq_refl) refl)

  -- If nothing waits for a recipient and there is a client to send with: when a timer for it ends after
  -- texts were queued, whichever request the timer belongs to, none of them was sent and none waits any
  -- more; only the key request went out.
  pub timeout-requests :
      (now : ℕ) (recipient p : Text) (ps : List Text) (h : Handler C)
      → lookup recipient h.pending ≡ none
      → h.has_net ≡ true
      → let g = key_timeout now recipient (requests recipient (p ∷ ps) h) in
        (outs g ≡ outs h ++ (key_request recipient ∷ [])) × (lookup recipient g.pending ≡ none)
  timeout-requests now recipient p ps h free net =
      let (waits, o, _, _) =
        requests_later recipient ps (p ∷ []) (outs h ++ (key_request recipient ∷ [])) h
          (request_key recipient p h) (request_first recipient p h free net) in
      let (os, gone) = timeout_lem now recipient (p ∷ ps) (requests recipient (p ∷ ps) h) waits in
      (os ∙ o, gone)

-- The envelopes that the engine makes of these texts, one after the other.
abbrev pub made {ℓ} : {C : Type ℓ} → Engine C → Text → Text → List Text → C → List Outgoing
made engine user_id recipient [] c = []
made engine user_id recipient (p ∷ ps) c =
    let (first, after) = engine.encrypt c user_id recipient p in
    cons_made first (made engine user_id recipient ps after)
  where
    cons_made : Option ChatEnvelope → List Outgoing → List Outgoing
    cons_made none rest = rest
    cons_made (some e) rest = chat_envelope e ∷ rest

module _ {ℓ} {C : Type ℓ} (engine : Engine C) (user_id password : Text) where
  outs-flush :
      (recipient : Text) (ps : List Text) (h : Handler C)
      → h.has_net ≡ true
      → (outs (flush engine user_id password recipient ps h).0
          ≡ outs h ++ made engine user_id recipient ps h.crypto)
        × ((flush engine user_id password recipient ps h).0.pending ≡ h.pending)
  unfolding flush
  outs-flush recipient [] h net = (sym (append-nil (outs h)), refl)
  outs-flush recipient (p ∷ ps) h net =
      let tried = record h { crypto = (engine.encrypt h.crypto user_id recipient p).1 } in
      elim (Option-cases (engine.encrypt h.crypto user_id recipient p).0) [
        | inl e ↦ rw (e, flush, made) (outs-flush recipient ps tried net)
        | inr (c, e) ↦
            let (o, same, n, q) = send_envelope_lem (chat_envelope c) tried net in
            let (os, qs) = outs-flush recipient ps (send_envelope (chat_envelope c) tried) n in
            rw (e, flush, made)
              (
                os
                    ∙ ap (outs (send_envelope (chat_envelope c) tried) ++◌)
                        (ap (made engine user_id recipient ps) same)
                    ∙ ap (◌++ made engine user_id recipient ps tried.crypto) o
                    ∙ append_assoc (outs h) (chat_envelope c ∷ []) _,
                qs ∙ q,
              )
      ]

  report_failed_lem :
      (now : ℕ) (recipient : Text) (r : Handler C × ℕ)
      → (outs (report_failed engine user_id password now recipient r) ≡ outs r.0)
        × ((report_failed engine user_id password now recipient r).pending ≡ r.0.pending)
  unfolding report_failed push_system post_ui
  report_failed_lem now recipient (h, failed) = elim (Bool-cases (ltb 0 failed)) [
    | inl e ↦ rw e (refl, refl)
    | inr e ↦ rw e (refl, refl)
  ]

  bundle_for :
      (now : ℕ) (b : KeyBundle) (ps : List Text) (h : Handler C)
      → is_empty b.recipient_for ≡ false
      → lookup b.recipient_for h.pending ≡ some ps
      → h.has_net ≡ true
      → let g = handle_key_bundle engine user_id password now (some b) h in
        (outs g
          ≡ outs h
            ++ made engine user_id b.recipient_for ps
                (engine.on_key_bundle b b.recipient_for h.crypto))
        × (lookup b.recipient_for g.pending ≡ none)
  unfolding handle_key_bundle
  bundle_for now b ps h named waits net =
      let ready : Handler C = record h {
        crypto = engine.on_key_bundle b b.recipient_for h.crypto;
        pending = erase b.recipient_for h.pending;
      } in
      let (o, q) = outs-flush b.recipient_for ps ready net in
      let (o', q') =
        report_failed_lem now b.recipient_for
          (flush engine user_id password b.recipient_for ps ready) in
      rw (named, waits, handle_key_bundle)
        (o' ∙ o, ap (lookup b.recipient_for) (q' ∙ q) ∙ rw (lookup-erase, text_eq_refl) refl)

  -- If nothing waits for a recipient and there is a client to send with: texts that are queued for it
  -- one after the other send one key request, and the bundle for the recipient then sends what the
  -- engine makes of all of them, in their order, and leaves nothing waiting.
  pub bundle-requests :
      (now : ℕ) (b : KeyBundle) (p : Text) (ps : List Text) (h : Handler C)
      → is_empty b.recipient_for ≡ false
      → lookup b.recipient_for h.pending ≡ none
      → h.has_net ≡ true
      → let g =
          handle_key_bundle engine user_id password now
            (some b)
            (requests b.recipient_for (p ∷ ps) h) in
        (outs g
          ≡ outs h
            ++ (key_request b.recipient_for
                ∷ made engine user_id b.recipient_for
                    (p ∷ ps)
                    (engine.on_key_bundle b b.recipient_for h.crypto)))
        × (lookup b.recipient_for g.pending ≡ none)
  bundle-requests now b p ps h named free net =
      let r = b.recipient_for in
      let asked = requests r (p ∷ ps) h in
      let (waits, o, same, n) =
        requests_later r ps (p ∷ []) (outs h ++ (key_request r ∷ [])) h (request_key r p h)
          (request_first r p h free net) in
      let (os, gone) = bundle_for now b (p ∷ ps) asked named waits n in
      (
        os
            ∙ ap (λ c. outs asked ++ made engine user_id r (p ∷ ps) (engine.on_key_bundle b r c))
                same
            ∙ ap (◌++ made engine user_id r (p ∷ ps) (engine.on_key_bundle b r h.crypto)) o
            ∙ append_assoc (outs h) (key_request r ∷ []) _,
        gone,
      )
