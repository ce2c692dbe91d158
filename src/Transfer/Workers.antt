-- ===== src/Transfer/Workers.antt =====
-- What the upload workers record in the table.
use ircord_client.Base.{
  ℕ, suc, ◌≡◌, refl, Bool, List, [], ◌∷◌, inl, inr, length, Text, arith, Bool-cases, Option-cases,
}
use ircord_client.Base.Assoc.{lookup}
use ircord_client.Transfer.{
  Manager, TransferInfo, FileChunk, do_upload, send_all, work, send, is_cancelled, upload_chunk,
  upload_request, chunks, chunk_size,
}

-- What a worker must leave alone.
abbrev pub SameTable : Manager → Manager → Type 0
SameTable m n =
    (n.transfers ≡ m.transfers)
    × (n.by_file ≡ m.by_file)
    × (n.next_transfer_id ≡ m.next_transfer_id)
    × (n.starting ≡ m.starting)

send_all-SameTable : (cs : List FileChunk) (m : Manager) → SameTable m (send_all cs m)
send_all-SameTable [] m = (refl, refl, refl, refl)
send_all-SameTable (c ∷ cs) m = ground (arith, send_all-SameTable cs (send (upload_chunk c) m))

do_upload-SameTable :
    (stops : ℕ → Bool) (t : TransferInfo) (m : Manager) → SameTable m (do_upload stops t m)
unfolding do_upload
do_upload-SameTable stops t m = elim (Option-cases (lookup t.local_path m.disk)) [
  | inl e ↦ rw (e, do_upload) (ground arith)
  | inr (content, e) ↦
      rw (e, do_upload)
        (ground (
          arith,
          send_all-SameTable
              (chunks chunk_size stops t.file_id t.file_size (suc (length content)) 0 0 content)
              (send (upload_request t chunk_size) m),
        ))
]

-- A worker records nothing of an upload in the table, whether it sends the file or cannot read it.
pub work-SameTable : (stops : ℕ → Bool) (m : Manager) → SameTable m (work stops m)
unfolding work
work-SameTable stops m = on_queue m.pending_uploads
  where
    on_queue : (ids : List Text) → SameTable m (work stops (record m { pending_uploads = ids }))
    on_queue [] = (refl, refl, refl, refl)
    on_queue (id ∷ rest) = elim (Option-cases (lookup id m.transfers)) [
      | inl e ↦ rw (e, work) (refl, refl, refl, refl)
      | inr (t, e) ↦ elim (Bool-cases (is_cancelled t.state)) [
        | inl gone ↦ rw (e, work) (rw gone (refl, refl, refl, refl))
        | inr alive ↦
            rw (e, work)
              (rw alive (do_upload-SameTable stops t (record m { pending_uploads = rest })))
      ]
    ]
