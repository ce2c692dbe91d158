-- ===== src/Transfer.antt =====
-- src/file/file_transfer.cpp: the transfer table, the upload queue and what the server reports.
-- Each section under the lock of the table is one step; `download` has two of them. The push of
-- `upload` onto the queue, under the queue's own lock, is made one step with its write to the table:
-- no other step but a worker's reads the queue. `work` is one round of `process_uploads`.
mod Types
mod Chunks
mod Names
mod Reports
pub mod Delivery
pub mod Workers
pub mod Lookup
pub mod Fresh
pub mod Clear
pub mod Cancel
mod Tests
unfoldable pub use Types.*
unfoldable pub use Chunks.*
unfoldable pub use Names.*
unfoldable pub use Reports.*
use ircord_client.Base.{
  ℕ, zero, suc, ◌+◌, ◌%◌, ◌^◌, Bool, true, false, not, ◌||◌, Option, none, some, List, [], ◌∷◌,
  ◌++◌, map, ltb, leb, ◌==◌, if◌then◌else◌, length, is_empty, Text, codes, text_eq,
}
use ircord_client.Base.Assoc.{Assoc, lookup, insert, erase, adjust, contains, or_default, is_some}
use ircord_client.Base.Decimal.{decimal}

abbrev pub new : Assoc Text → Manager
new disk = record {
  transfers = [];
  by_file = [];
  starting = [];
  can_send = false;
  next_transfer_id = 1;
  pending_uploads = [];
  disk = disk;
  sent = [];
}

unfoldable pub set_send_function : Manager → Manager
set_send_function m = record m { can_send = true }

unfoldable pub generate_transfer_id : ℕ → Text
generate_transfer_id n = codes "xfer_" ++ decimal n

-- The transfer id, empty if the file does not exist. `uuid` is what the library's generator gives.
unfoldable pub upload : Text → Text → Text → Text → Manager → Text × Manager
unfolding generate_transfer_id
upload uuid local_path recipient_id channel_id m = elim (lookup local_path m.disk) [
  | none ↦ ([], m)
  | some content ↦
      let id = generate_transfer_id m.next_transfer_id in
      let info : TransferInfo = record {
        transfer_id = id;
        file_id = uuid;
        filename = filename_of [] local_path;
        mime_type = mime_type_of (extension (filename_of [] local_path));
        file_size = length content;
        bytes_transferred = 0;
        direction = to_server;
        state = pending;
        progress = ratio 0 1;
        error_message = [];
        local_path = local_path;
        recipient_id = recipient_id;
        channel_id = channel_id;
      } in
      (
        id,
        record m {
          transfers = insert id info m.transfers;
          by_file = insert uuid id m.by_file;
          next_transfer_id = m.next_transfer_id + 1;
          pending_uploads = m.pending_uploads ++ (id ∷ []);
        },
      )
]

abbrev pub send : Sent → Manager → Manager
send message m = if m.can_send then record m { sent = m.sent ++ (message ∷ []) } else m

-- The record that `download` writes at first.
unfoldable pub download_info : Text → Text → Text → TransferInfo
download_info id file_id local_path = record {
  transfer_id = id;
  file_id = file_id;
  filename = filename_of [] local_path;
  mime_type = [];
  file_size = 0;
  bytes_transferred = 0;
  direction = from_server;
  state = pending;
  progress = ratio 0 1;
  error_message = [];
  local_path = local_path;
  recipient_id = [];
  channel_id = [];
}

-- `download` up to the end of its first section under the lock.
unfoldable pub start_download : Text → Text → Manager → Text × Manager
unfolding generate_transfer_id download_info
start_download file_id local_path m =
    let id = generate_transfer_id m.next_transfer_id in
    let info = download_info id file_id local_path in
    (
      id,
      record m {
        transfers = insert id info m.transfers;
        by_file = insert file_id id m.by_file;
        starting = insert id info m.starting;
        next_transfer_id = m.next_transfer_id + 1;
      },
    )

-- The call's own record once it has tried to send its request.
unfoldable pub after_request : Bool → TransferInfo → TransferInfo
after_request sent t =
    if sent
    then record t { state = downloading }
    else record t { state = failed; error_message = codes "Network not available" }

-- The rest of the call: the request, which works on nothing that another call reads, and the second
-- section under the lock, which writes the call's own record over what the table has by then.
unfoldable pub finish_download : Text → Manager → Manager
unfolding after_request
finish_download id m = elim (lookup id m.starting) [
  | none ↦ m
  | some t ↦ send (download_request t.file_id 0) (record m {
    transfers = insert id (after_request m.can_send t) m.transfers;
    starting = erase id m.starting;
  })
]

-- The whole call with no other between its two sections.
unfoldable pub download : Text → Text → Manager → Text × Manager
unfolding start_download finish_download
download file_id local_path m =
    let (id, started) = start_download file_id local_path m in (id, finish_download id started)

unfoldable pub cancel : Text → Manager → Manager
cancel id m = record m { transfers = adjust id (λ t. record t { state = cancelled }) m.transfers }

unfoldable pub get_transfer : Text → Manager → Option TransferInfo
get_transfer id m = lookup id m.transfers

abbrev pub is_active : TransferState → Bool
is_active pending = true
is_active uploading = true
is_active downloading = true
is_active _ = false

unfoldable pub active_of : Assoc TransferInfo → List TransferInfo
active_of [] = []
active_of ((id, t) ∷ m) = if is_active t.state then t ∷ active_of m else active_of m

unfoldable pub get_active_transfers : Manager → List TransferInfo
unfolding active_of
get_active_transfers m = active_of m.transfers

-- The loop of `clear_completed`: what stays of the table, and of the map from file ids.
unfoldable pub kept : Assoc TransferInfo → Assoc TransferInfo
kept [] = []
kept ((id, t) ∷ m) = if is_active t.state then (id, t) ∷ kept m else kept m

unfoldable pub unlink : Assoc TransferInfo → Assoc Text → Assoc Text
unlink [] files = files
unlink ((id, t) ∷ m) files = unlink m (if is_active t.state then files else erase t.file_id files)

unfoldable pub clear_completed : Manager → Manager
unfolding kept unlink
clear_completed m = record m {
  transfers = kept m.transfers;
  by_file = unlink m.transfers m.by_file;
}

abbrev send_all : List FileChunk → Manager → Manager
send_all [] m = m
send_all (c ∷ cs) m = send_all cs (send (upload_chunk c) m)

-- `do_upload` works on a copy of the record, so only what it sends is left of it. A file of `n`
-- bytes takes `n + 1` rounds at most.
unfoldable pub do_upload : (ℕ → Bool) → TransferInfo → Manager → Manager
do_upload stops t m =
    let asked = send (upload_request t chunk_size) m in
    elim (lookup t.local_path m.disk) [
      | none ↦ asked
      | some content ↦
          send_all
            (chunks chunk_size stops t.file_id t.file_size (suc (length content)) 0 0 content) asked
    ]

-- A worker takes the oldest pending upload.
unfoldable pub work : (ℕ → Bool) → Manager → Manager
unfolding do_upload
work stops m = elim m.pending_uploads [
  | [] ↦ m
  | id ∷ rest ↦
      let popped = record m { pending_uploads = rest } in
      elim (lookup id m.transfers) [
        | none ↦ popped
        | some t ↦ if is_cancelled t.state then popped else do_upload stops t popped
      ]
]

-- Every step that changes the manager, with what the rest of the world adds to it: `downloads` and
-- `records` are the two halves of a `download`, and any other step may come between them.
pub data Event : Type 0 where
  uploads : Text → Text → Text → Text → Event
  downloads : Text → Text → Event
  records : Text → Event
  cancels : Text → Event
  clears connects : Event
  chunk_comes : (Text → Bool) → FileChunk → Event
  progress_comes : FileProgress → Event
  complete_comes : Text → ℕ → Event
  error_comes : Text → Text → Event
  works : (ℕ → Bool) → Event

unfoldable pub act : Event → Manager → Manager
act (uploads uuid path recipient channel) m = (upload uuid path recipient channel m).1
act (downloads file_id path) m = (start_download file_id path m).1
act (records id) m = finish_download id m
act (cancels id) m = cancel id m
act clears m = clear_completed m
act connects m = set_send_function m
act (chunk_comes can_write chunk) m = on_file_chunk can_write chunk m
act (progress_comes p) m = on_file_progress p m
act (complete_comes file_id total) m = on_file_complete file_id total m
act (error_comes file_id message) m = on_file_error file_id message m
act (works stops) m = work stops m

abbrev pub run : Manager → List Event → Manager
run m [] = m
run m (e ∷ es) = run (act e m) es
