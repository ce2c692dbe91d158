-- ===== src/Transfer/Fresh.antt =====
-- Transfer ids are never given out twice.
use ircord_client.Base.{
  ℕ, ◌+◌, ◌≤◌, ◌≡◌, refl, subst, Bool, none, some, List, [], ◌∷◌, ◌++◌, inl, inr, Text, text_eq_iff,
  codes, arith, Bool-cases, Option-cases,
}
use ircord_client.Base.Assoc.{
  Assoc, lookup, insert, erase, lookup-insert, lookup-erase, lookup-adjust, or_default,
}
use ircord_client.Base.Decimal.{decimal_inj}
use ircord_client.Transfer.{
  Manager, TransferInfo, FileChunk, Event, act, run, new, generate_transfer_id, upload,
  start_download, finish_download, send, Sent, download_request, cancel, clear_completed, kept,
  transfer_of, update, on_file_chunk, after_chunk, on_file_progress, after_progress,
  on_file_complete, on_file_error, uploads, downloads, records, cancels, clears, connects,
  chunk_comes, progress_comes, complete_comes, error_comes, works, is_cancelled, set_send_function,
}
use ircord_client.Transfer.Workers.{work-SameTable}
use ircord_client.Transfer.Lookup.{transfer_of-some}

-- No transfer has an id that is still to be given out, and no running call of `download`.
abbrev pub IsFresh : Manager → Type 0
IsFresh m =
    (n : ℕ)
    → m.next_transfer_id ≤ n
    → (lookup (generate_transfer_id n) m.transfers ≡ none)
      × (lookup (generate_transfer_id n) m.starting ≡ none)

append_inj : (s t u : Text) → s ++ t ≡ s ++ u → t ≡ u
append_inj [] t u h = h
append_inj (c ∷ s) t u h = append_inj s t u (cc)

generate_inj : (a b : ℕ) → generate_transfer_id a ≡ generate_transfer_id b → a ≡ b
unfolding generate_transfer_id
generate_inj a b h = decimal_inj a b (append_inj (codes "xfer_") _ _ h)

lookup-kept : (j : Text) (ts : Assoc TransferInfo) → lookup j ts ≡ none → lookup j (kept ts) ≡ none
unfolding lookup kept
lookup-kept j [] h = refl
lookup-kept j ((id, t) ∷ ts) h = ground (arith, lookup-kept j ts)

send-IsFresh : (out : Sent) (m : Manager) → IsFresh m → IsFresh (send out m)
send-IsFresh out m fresh = elim (Bool-cases m.can_send) [ inl e ↦ rw e fresh | inr e ↦ rw e fresh ]

module _ (m : Manager) (fresh : IsFresh m) where
  touch-IsFresh :
      (id : Text) (t t' : TransferInfo) (disk : Assoc Text)
      → lookup id m.transfers ≡ some t
      → IsFresh (record m { transfers = insert id t' m.transfers; disk = disk })
  touch-IsFresh id t t' disk e n h = (
    rw lookup-insert (ground (arith, text_eq_iff id (generate_transfer_id n), fresh n)),
    (fresh n h).1,
  )

  store_fresh :
      (ts : Assoc TransferInfo) (t : TransferInfo) (n : ℕ)
      → m.next_transfer_id + 1 ≤ n
      → lookup (generate_transfer_id n) ts ≡ none
      → lookup (generate_transfer_id n) (insert (generate_transfer_id m.next_transfer_id) t ts)
        ≡ none
  store_fresh ts t n h e = rw lookup-insert (
      ground (
        arith,
        text_eq_iff (generate_transfer_id m.next_transfer_id) (generate_transfer_id n),
        generate_inj m.next_transfer_id n,
        e,
      ))

  upload-IsFresh :
      (uuid path recipient channel : Text) → IsFresh (upload uuid path recipient channel m).1
  unfolding upload
  upload-IsFresh uuid path recipient channel n = elim (Option-cases (lookup path m.disk)) [
    | inl e ↦ rw (e, upload) (fresh n)
    | inr (content, e) ↦
        rw (e, upload)
          (λ h.
            let old = fresh n (omega (arith, h)) in (store_fresh m.transfers _ n h old.0, old.1))
  ]

  start_download-IsFresh : (file_id path : Text) → IsFresh (start_download file_id path m).1
  unfolding start_download
  start_download-IsFresh file_id path n h =
      let old = fresh n (omega (arith, h)) in
      (store_fresh m.transfers _ n h old.0, store_fresh m.starting _ n h old.1)

  recorded-IsFresh :
      (id : Text) (t t' : TransferInfo)
      → lookup id m.starting ≡ some t
      → IsFresh (record m { transfers = insert id t' m.transfers; starting = erase id m.starting })
  recorded-IsFresh id t t' e n h = (
    rw lookup-insert (ground (arith, e, text_eq_iff id (generate_transfer_id n), fresh n h)),
    rw lookup-erase (ground (arith, fresh n h)),
  )

  finish_download-IsFresh : (id : Text) → IsFresh (finish_download id m)
  unfolding finish_download
  finish_download-IsFresh id = elim (Option-cases (lookup id m.starting)) [
    | inl e ↦ rw (e, finish_download) fresh
    | inr (t, e) ↦
        rw (e, finish_download)
          (send-IsFresh (download_request t.file_id 0) _ (recorded-IsFresh id t _ e))
  ]

  cancel-IsFresh : (id : Text) → IsFresh (cancel id m)
  unfolding cancel
  cancel-IsFresh id n h = (rw lookup-adjust (ground (arith, fresh n)), (fresh n h).1)

  clear-IsFresh : IsFresh (clear_completed m)
  unfolding clear_completed
  clear-IsFresh n h =
      (lookup-kept (generate_transfer_id n) m.transfers (fresh n h).0, (fresh n h).1)

  update-IsFresh : (file_id : Text) (f : TransferInfo → TransferInfo) → IsFresh (update file_id f m)
  update-IsFresh file_id f = elim (Option-cases (transfer_of file_id m)) [
    | inl e ↦ rw (e, update) fresh
    | inr ((id, t), e) ↦
        rw (e, update) (touch-IsFresh id t (f t) m.disk (transfer_of-some file_id m e))
  ]

  on_file_chunk-IsFresh :
      (can_write : Text → Bool) (c : FileChunk) → IsFresh (on_file_chunk can_write c m)
  unfolding on_file_chunk
  on_file_chunk-IsFresh can_write c = elim (Option-cases (transfer_of c.file_id m)) [
    | inl e ↦ rw (e, on_file_chunk) fresh
    | inr ((id, t), e) ↦ elim (Bool-cases (is_cancelled t.state)) [
      | inl gone ↦ rw (e, on_file_chunk) (rw gone fresh)
      | inr alive ↦ elim (Bool-cases (can_write t.local_path)) [
        | inl open_ ↦
            rw (e, on_file_chunk)
              (rw (alive, open_)
                (touch-IsFresh id t (after_chunk c t)
                  (insert t.local_path (or_default [] (lookup t.local_path m.disk) ++ c.bytes)
                    m.disk)
                  (transfer_of-some c.file_id m e)))
        | inr shut ↦
            rw (e, on_file_chunk)
              (rw (alive, shut) (touch-IsFresh id t _ m.disk (transfer_of-some c.file_id m e)))
      ]
    ]
  ]

pub act-IsFresh : (e : Event) (m : Manager) → IsFresh m → IsFresh (act e m)
unfolding act set_send_function on_file_progress on_file_complete on_file_error
act-IsFresh (uploads uuid path recipient channel) m h =
    upload-IsFresh m h uuid path recipient channel
act-IsFresh (downloads file_id path) m h = start_download-IsFresh m h file_id path
act-IsFresh (records id) m h = finish_download-IsFresh m h id
act-IsFresh (cancels id) m h = cancel-IsFresh m h id
act-IsFresh clears m h = clear-IsFresh m h
act-IsFresh connects m h = h
act-IsFresh (chunk_comes can_write c) m h = on_file_chunk-IsFresh m h can_write c
act-IsFresh (progress_comes p) m h = update-IsFresh m h p.file_id (after_progress p)
act-IsFresh (complete_comes file_id total) m h = update-IsFresh m h file_id _
act-IsFresh (error_comes file_id message) m h = update-IsFresh m h file_id _
act-IsFresh (works stops) m h = λ n l.
    let w = work-SameTable stops m in
    let old = h n (subst (λ k. k ≤ n) w.2 l) in (rw (w.0) old.0, rw (w.3) old.1)

run-IsFresh : (events : List Event) (m : Manager) → IsFresh m → IsFresh (run m events)
run-IsFresh [] m h = h
run-IsFresh (e ∷ es) m h = run-IsFresh es (act e m) (act-IsFresh e m h)

-- After any events on a new manager no transfer in the table has an id that is still to be given
-- out, so neither the next one's nor a later one's.
pub run-new-IsFresh : (disk : Assoc Text) (events : List Event) → IsFresh (run (new disk) events)
unfolding lookup
run-new-IsFresh disk events = run-IsFresh events (new disk) (λ n h. (refl, refl))
