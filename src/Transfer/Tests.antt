-- ===== src/Transfer/Tests.antt =====
-- Runs of the transfer manager, and each theorem at an input that meets its hypotheses.
use ircord_client.Base.{
  ◌≡◌, refl, true, false, some, List, [], ◌∷◌, arith, Text, codes, text_eq, length, ltb,
}
use ircord_client.Base.Assoc.{lookup, insert, erase, adjust}
use ircord_client.Base.Decimal.{decimal}
use ircord_client.Transfer.{
  Manager, TransferInfo, TransferState, FileChunk, Event, cancelled, completed, downloading, new,
  act, run, chunks, mime_type_of, extension, extension_of, filename_of, downloads, records, cancels,
  connects, chunk_comes, start_download, finish_download, cancel, on_file_chunk, on_file_complete,
  set_send_function, get_transfer, ratio, from_server,
}
use ircord_client.Transfer.Delivery.{AreChunks, joined, chunks-deliver}
use ircord_client.Transfer.Fresh.{IsFresh, run-new-IsFresh}
use ircord_client.Transfer.Cancel.{IsCancelled, act-IsCancelled}

abbrev seven : Text
seven = codes "abcdefg"

-- Seven bytes in chunks of three: the third is short, and the last.
seven_sent : joined (chunks 3 (λ r. false) (codes "f") 7 8 0 0 seven) ≡ seven
unfolding chunks
seven_sent = refl

two_of_seven : length (chunks 3 (λ r. ltb 0 r) (codes "f") 7 8 0 0 seven) ≡ 1
unfolding chunks
two_of_seven = refl

photo : mime_type_of (extension (filename_of [] (codes "/tmp/a.b/photo.jpeg"))) ≡ codes "image/jpeg"
unfolding mime_type_of extension_of filename_of text_eq
photo = refl

chunks-deliver_example :
    let sent = chunks 3 (λ round. false) (codes "f") 7 8 0 0 seven in
    (joined sent ≡ seven) × AreChunks 3 (codes "f") 0 sent
chunks-deliver_example = chunks-deliver 3 (codes "f") seven (omega arith)

abbrev started : Manager
started =
    run (new []) (connects ∷ downloads (codes "f") (codes "/tmp/f") ∷ records (codes "xfer_1") ∷ [])

abbrev info : Text → TransferState → TransferInfo
info id state = record {
  transfer_id = id;
  file_id = codes "f";
  filename = codes "f";
  mime_type = [];
  file_size = 0;
  bytes_transferred = 0;
  direction = from_server;
  state = state;
  progress = ratio 0 1;
  error_message = [];
  local_path = codes "/tmp/f";
  recipient_id = [];
  channel_id = [];
}

-- Two downloads of one file: the first is over, the second goes on.
abbrev two : TransferState → Manager
two state = record {
  transfers =
      (codes "xfer_1", info (codes "xfer_1") state)
      ∷ (codes "xfer_2", info (codes "xfer_2") downloading)
      ∷ [];
  by_file = (codes "f", codes "xfer_2") ∷ [];
  starting = [];
  can_send = true;
  next_transfer_id = 3;
  pending_uploads = [];
  disk = [];
  sent = [];
}

abbrev piece : FileChunk
piece = record { file_id = codes "f"; chunk_index = 0; bytes = seven; is_last = false }

-- Without the clearing the chunk is written, and the progress is a quotient by zero.
written :
    get_transfer (codes "xfer_2") (on_file_chunk (λ path. true) piece (two completed))
    ≡ some
        (record (info (codes "xfer_2") downloading) { bytes_transferred = 7; progress = ratio 7 0 })
unfolding get_transfer on_file_chunk lookup insert text_eq
written = refl

abbrev calls : List Event
calls =
    connects
    ∷ downloads (codes "f") (codes "/tmp/f")
    ∷ records (codes "xfer_1")
    ∷ cancels (codes "xfer_1")
    ∷ []

abbrev one : Manager
one = run (new []) calls

one-IsCancelled : IsCancelled (codes "xfer_1") one
unfolding act set_send_function start_download finish_download cancel lookup insert erase adjust
    text_eq filename_of decimal
one-IsCancelled = (info (codes "xfer_1") cancelled, refl, refl)

one_file : lookup (codes "f") one.by_file ≡ some (codes "xfer_1")
unfolding act set_send_function start_download finish_download cancel lookup insert erase adjust
    text_eq filename_of decimal
one_file = refl

one-IsFresh : IsFresh one
one-IsFresh = run-new-IsFresh [] calls

act-IsCancelled_example : IsCancelled (codes "xfer_1") (act (chunk_comes (λ path. true) piece) one)
act-IsCancelled_example =
    act-IsCancelled (codes "xfer_1") (chunk_comes (λ path. true) piece) one one-IsFresh tt
      one-IsCancelled

-- A cancel between the two writes of the `download` is written over.
late :
    get_transfer (codes "xfer_1") (
      run (new []) (
        connects
        ∷ downloads (codes "f") (codes "/tmp/f")
        ∷ cancels (codes "xfer_1")
        ∷ records (codes "xfer_1")
        ∷ []))
    ≡ some (info (codes "xfer_1") downloading)
unfolding act set_send_function start_download finish_download cancel lookup insert erase adjust
    text_eq filename_of decimal get_transfer
late = refl

-- A report of the end of a cancelled transfer makes it count as completed.
revived :
    get_transfer (codes "xfer_1") (on_file_complete (codes "f") 0 one)
    ≡ some (record (info (codes "xfer_1") completed) { progress = ratio 1 1 })
unfolding act set_send_function start_download finish_download cancel lookup insert erase adjust
    text_eq filename_of decimal get_transfer on_file_complete
revived = refl
