-- ===== src/Transfer/Lookup.antt =====
-- What the handlers find for a file id.
use ircord_client.Base.{◌≡◌, none, some, inl, inr, Text, arith, Option-cases}
use ircord_client.Base.Assoc.{lookup}
use ircord_client.Transfer.{Manager, TransferInfo, transfer_of}

pub transfer_of-some :
    (file_id : Text) (m : Manager) {p : Text × TransferInfo}
    → transfer_of file_id m ≡ some p
    → lookup p.0 m.transfers ≡ some p.1
unfolding transfer_of
transfer_of-some file_id m {p} h = elim (Option-cases (lookup file_id m.by_file)) [
  | inl e ↦ ground arith
  | inr (id, e) ↦ elim (Option-cases (lookup id m.transfers)) [
    | inl f ↦ ground arith
    | inr (t, f) ↦ ground arith
  ]
]

pub transfer_of-none : (f : Text) (m : Manager) → lookup f m.by_file ≡ none → transfer_of f m ≡ none
unfolding transfer_of
transfer_of-none f m h = rw (h, transfer_of)

pub transfer_of-file :
    (file_id : Text) (m : Manager) {p : Text × TransferInfo}
    → transfer_of file_id m ≡ some p
    → lookup file_id m.by_file ≡ some p.0
unfolding transfer_of
transfer_of-file file_id m {p} h = elim (Option-cases (lookup file_id m.by_file)) [
  | inl e ↦ ground arith
  | inr (id, e) ↦ elim (Option-cases (lookup id m.transfers)) [
    | inl f ↦ ground arith
    | inr (t, f) ↦ ground arith
  ]
]
