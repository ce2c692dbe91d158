-- ===== src/Transfer/Chunks.antt =====
-- The sending loop of `do_upload` in src/file/file_transfer.cpp.
use ircord_client.Base.{
  ℕ, zero, suc, ◌+◌, ◌*◌, ◌%◌, ◌^◌, Bool, ◌||◌, List, [], ◌∷◌, ltb, leb, if◌then◌else◌, length,
  take, drop, is_empty, Text,
}
use ircord_client.Transfer.Types.{FileChunk}

-- CHUNK_SIZE
abbrev pub chunk_size : ℕ
chunk_size = 64 * 1024

-- One round for each call of `read`: `rest` is what is left of the file, `total` what was sent.
-- `stops` says in which rounds another thread has cancelled the transfer or set `shutdown_`.
-- A short read leaves the stream at its end, so the next test of `good` fails.
unfoldable pub chunks : ℕ → (ℕ → Bool) → Text → ℕ → ℕ → ℕ → ℕ → Text → List FileChunk
chunks size stops file_id file_size zero round total rest = []
chunks size stops file_id file_size (suc fuel) round total rest =
    let got = take size rest in
    let chunk : FileChunk = record {
      file_id = file_id;
      chunk_index = round % 2 ^ 32;
      bytes = got;
      is_last = ltb (length got) size || leb file_size (total + length got);
    } in
    let later =
      chunks size stops file_id file_size fuel (round + 1) (total + length got) (drop size rest) in
    let from_here = chunk ∷ (if ltb (length got) size then [] else later) in
    if stops round then [] else if is_empty got then [] else from_here
