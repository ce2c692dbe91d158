-- ===== src/Transfer/Clear.antt =====
-- What `clear_completed` takes out, and what it takes with it.
use ircord_client.Base.{
  ◌≡◌, refl, sym, subst, Bool, true, false, none, some, [], ◌∷◌, inl, inr, All, Text, text_eq,
  text_eq_refl, arith, Bool-cases,
}
use ircord_client.Base.Assoc.{Assoc, lookup, lookup-erase}
use ircord_client.Transfer.{
  Manager, TransferInfo, FileChunk, clear_completed, kept, unlink, is_active, active_of,
  get_active_transfers, on_file_chunk,
}
use ircord_client.Transfer.Lookup.{transfer_of-none}

active-kept : (ts : Assoc TransferInfo) → active_of (kept ts) ≡ active_of ts
unfolding active_of kept
active-kept [] = refl
active-kept ((id, t) ∷ ts) = ground (arith, active-kept ts)

abbrev pub IsActiveEntry : Text × TransferInfo → Type 0
IsActiveEntry e = is_active e.1.state ≡ true

kept-active : (ts : Assoc TransferInfo) → All IsActiveEntry (kept ts)
unfolding kept
kept-active [] = tt
kept-active ((id, t) ∷ ts) = ground (arith, kept-active ts)

-- `clear_completed` leaves the active transfers as they are, in their order, and nothing else.
pub clear_completed_lem :
    (m : Manager)
    → (get_active_transfers (clear_completed m) ≡ get_active_transfers m)
      × All IsActiveEntry (clear_completed m).transfers
unfolding clear_completed get_active_transfers
clear_completed_lem m = (active-kept m.transfers, kept-active m.transfers)

unlink_keeps_none :
    (f : Text) (ts : Assoc TransferInfo) (files : Assoc Text)
    → lookup f files ≡ none
    → lookup f (unlink ts files) ≡ none
unfolding unlink
unlink_keeps_none f [] files h = h
unlink_keeps_none f ((id, t) ∷ ts) files h =
    unlink_keeps_none f ts _ (elim (Bool-cases (is_active t.state)) [
      | inl e ↦ rw e h
      | inr e ↦ rw (e, lookup-erase) (ground arith)
    ])

lookup-unlink :
    (id : Text) (t : TransferInfo) (ts : Assoc TransferInfo) (files : Assoc Text)
    → lookup id ts ≡ some t
    → is_active t.state ≡ false
    → lookup t.file_id (unlink ts files) ≡ none
unfolding unlink lookup
lookup-unlink id t [] files h e = cc
lookup-unlink id t ((j, u) ∷ ts) files h e = elim (Bool-cases (text_eq j id)) [
  | inl here ↦
      let same : u ≡ t = ground arith in
      rw (same, e) (unlink_keeps_none t.file_id ts _ (rw (lookup-erase, text_eq_refl)))
  | inr there ↦ lookup-unlink id t ts _ (ground arith) e
]

-- When `clear_completed` takes a finished transfer out, a chunk for its file id then changes
-- nothing, whatever other transfers of that file are still active.
pub chunk-clear_completed :
    (can_write : Text → Bool) (m : Manager) (id : Text) (t : TransferInfo) (c : FileChunk)
    → lookup id m.transfers ≡ some t
    → is_active t.state ≡ false
    → c.file_id ≡ t.file_id
    → on_file_chunk can_write c (clear_completed m) ≡ clear_completed m
unfolding on_file_chunk
chunk-clear_completed can_write m id t c h e same =
    let gone : lookup c.file_id (clear_completed m).by_file ≡ none =
      subst (λ f. lookup f (clear_completed m).by_file ≡ none) (sym same)
        (unfold clear_completed in lookup-unlink id t m.transfers m.by_file h e) in
    rw (transfer_of-none c.file_id (clear_completed m) gone, on_file_chunk)
