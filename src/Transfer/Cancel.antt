-- ===== src/Transfer/Cancel.antt =====
-- How long a cancelled transfer stays cancelled.
use ircord_client.Base.{
  ◌≡◌, ◌≢◌, refl, ap, ◌∙◌, Bool, false, some, [], ◌++◌, inl, inr, Text, text_eq, text_eq_iff, arith,
  Bool-cases, Option-cases,
}
use ircord_client.Base.Assoc.{Assoc, lookup, insert, lookup-insert, lookup-adjust, or_default}
use ircord_client.Transfer.{
  Manager, TransferInfo, FileChunk, Event, act, generate_transfer_id, upload, start_download,
  finish_download, cancel, transfer_of, update, on_file_chunk, after_chunk, write_failure,
  on_file_progress, after_progress, on_file_complete, on_file_error, uploads, downloads, records,
  cancels, clears, connects, chunk_comes, progress_comes, complete_comes, error_comes, works,
  is_cancelled, set_send_function, cancelled,
}
use ircord_client.Transfer.Workers.{work-SameTable}
use ircord_client.Transfer.Lookup.{transfer_of-some, transfer_of-file}
use ircord_client.Transfer.Fresh.{IsFresh}

-- The transfer with this id is in the table, and is cancelled.
abbrev pub IsCancelled : Text → Manager → Type 0
IsCancelled id m = (t : TransferInfo) × (lookup id m.transfers ≡ some t) × (t.state ≡ cancelled)

-- Not a report of the server on the transfer's file, not a clearing of the table, and not the second
-- write of the `download` that began the transfer.
abbrev pub LeavesAlone : Text → Manager → Event → Type 0
LeavesAlone id m (progress_comes p) = lookup p.file_id m.by_file ≢ some id
LeavesAlone id m (complete_comes file_id total) = lookup file_id m.by_file ≢ some id
LeavesAlone id m (error_comes file_id message) = lookup file_id m.by_file ≢ some id
LeavesAlone id m (records j) = j ≢ id
LeavesAlone id m clears = ⊥
LeavesAlone id m _ = Unit {0}

module _ (id : Text) (m : Manager) (h : IsCancelled id m) where
  -- A write to another entry.
  insert-IsCancelled :
      (j : Text) (u : TransferInfo) (disk : Assoc Text)
      → j ≢ id
      → IsCancelled id (record m { transfers = insert j u m.transfers; disk = disk })
  insert-IsCancelled j u disk ne = (h.0, rw lookup-insert (ground (arith, text_eq_iff j id)), h.2)

  cancel-IsCancelled : (j : Text) → IsCancelled id (cancel j m)
  unfolding cancel
  cancel-IsCancelled j = elim (Bool-cases (text_eq j id)) [
    | inl e ↦ (record h.0 { state = cancelled }, rw (lookup-adjust, e) (ground arith), refl)
    | inr e ↦ (h.0, rw (lookup-adjust, e) h.1, h.2)
  ]

  -- A new entry has another id.
  new_id : IsFresh m → generate_transfer_id m.next_transfer_id ≢ id
  new_id fresh e =
      ground (arith, fresh m.next_transfer_id (omega arith), ap (λ j. lookup j m.transfers) e)

  upload-IsCancelled :
      (uuid path recipient channel : Text)
      → IsFresh m
      → IsCancelled id (upload uuid path recipient channel m).1
  unfolding upload
  upload-IsCancelled uuid path recipient channel fresh = elim (Option-cases (lookup path m.disk)) [
    | inl e ↦ rw (e, upload) h
    | inr (content, e) ↦ rw (e, upload) (insert-IsCancelled _ _ m.disk (new_id fresh))
  ]

  start_download-IsCancelled :
      (file_id path : Text) → IsFresh m → IsCancelled id (start_download file_id path m).1
  unfolding start_download
  start_download-IsCancelled file_id path fresh = insert-IsCancelled _ _ m.disk (new_id fresh)

  finish_download-IsCancelled : (j : Text) → j ≢ id → IsCancelled id (finish_download j m)
  unfolding finish_download
  finish_download-IsCancelled j ne = elim (Option-cases (lookup j m.starting)) [
    | inl e ↦ rw (e, finish_download) h
    | inr (t, e) ↦ elim (Bool-cases m.can_send) [
      | inl s ↦ rw (e, finish_download) (rw s (insert-IsCancelled j _ m.disk ne))
      | inr s ↦ rw (e, finish_download) (rw s (insert-IsCancelled j _ m.disk ne))
    ]
  ]

  update-IsCancelled :
      (file_id : Text) (f : TransferInfo → TransferInfo)
      → lookup file_id m.by_file ≢ some id
      → IsCancelled id (update file_id f m)
  update-IsCancelled file_id f ne = elim (Option-cases (transfer_of file_id m)) [
    | inl e ↦ rw (e, update) h
    | inr ((j, t), e) ↦
        rw (e, update)
          (insert-IsCancelled j (f t) m.disk
            (λ p. ne (transfer_of-file file_id m e ∙ ap (λ k. some k) p)))
  ]

  -- The id of an entry that is not cancelled is another one.
  alive_id :
      (j : Text) (t : TransferInfo)
      → lookup j m.transfers ≡ some t
      → is_cancelled t.state ≡ false
      → j ≢ id
  alive_id j t e alive p = ground (arith, ap (λ k. lookup k m.transfers) p, h.1, h.2)

  on_file_chunk-IsCancelled :
      (can_write : Text → Bool) (c : FileChunk) → IsCancelled id (on_file_chunk can_write c m)
  unfolding on_file_chunk
  on_file_chunk-IsCancelled can_write c = elim (Option-cases (transfer_of c.file_id m)) [
    | inl e ↦ rw (e, on_file_chunk) h
    | inr ((j, t), e) ↦ elim (Bool-cases (is_cancelled t.state)) [
      | inl gone ↦ rw (e, on_file_chunk) (rw gone h)
      | inr alive ↦
          let ne = alive_id j t (transfer_of-some c.file_id m e) alive in
          elim (Bool-cases (can_write t.local_path)) [
            | inl open_ ↦
                rw (e, on_file_chunk)
                  (rw (alive, open_)
                    (insert-IsCancelled j (after_chunk c t)
                      (insert t.local_path (or_default [] (lookup t.local_path m.disk) ++ c.bytes)
                        m.disk)
                      ne))
            | inr shut ↦
                rw (e, on_file_chunk)
                  (rw (alive, shut) (insert-IsCancelled j (write_failure t) m.disk ne))
          ]
    ]
  ]

-- A cancelled transfer stays cancelled through every step but a report of the server on its file, a
-- clearing of the table, and the second write to the table of the `download` that began it.
pub act-IsCancelled :
    (id : Text) (e : Event) (m : Manager)
    → IsFresh m
    → LeavesAlone id m e
    → IsCancelled id m
    → IsCancelled id (act e m)
unfolding act set_send_function on_file_progress on_file_complete on_file_error
act-IsCancelled id (uploads uuid path recipient channel) m fresh q h =
    upload-IsCancelled id m h uuid path recipient channel fresh
act-IsCancelled id (downloads file_id path) m fresh q h =
    start_download-IsCancelled id m h file_id path fresh
act-IsCancelled id (records j) m fresh q h = finish_download-IsCancelled id m h j q
act-IsCancelled id (cancels j) m fresh q h = cancel-IsCancelled id m h j
act-IsCancelled id clears m fresh q h = absurd q
act-IsCancelled id connects m fresh q h = h
act-IsCancelled id (chunk_comes can_write c) m fresh q h =
    on_file_chunk-IsCancelled id m h can_write c
act-IsCancelled id (progress_comes p) m fresh q h =
    update-IsCancelled id m h p.file_id (after_progress p) q
act-IsCancelled id (complete_comes file_id total) m fresh q h =
    update-IsCancelled id m h file_id _ q
act-IsCancelled id (error_comes file_id message) m fresh q h = update-IsCancelled id m h file_id _ q
act-IsCancelled id (works stops) m fresh q h = (h.0, rw ((work-SameTable stops m).0) h.1, h.2)
