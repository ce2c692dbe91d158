-- ===== src/Transfer/Delivery.antt =====
-- What the sending loop delivers.
use ircord_client.Base.{
  ℕ, zero, suc, ◌+◌, ◌%◌, ◌^◌, ◌≤◌, ◌<◌, ◌≡◌, refl, ap, sym, ◌∙◌, Bool, false, List, [], ◌∷◌, ◌++◌,
  ltb, leb, ltb→lt, length, length-take, length-drop, take, drop, take-append-drop, is_empty, Text,
  arith, inl, inr, Bool-cases,
}
use mathlib.Core.List.{append-nil, append_assoc}
use ircord_client.Transfer.{FileChunk, chunks}

-- The bytes of the chunks, one after the other.
abbrev pub joined : List FileChunk → Text
joined [] = []
joined (c ∷ cs) = c.bytes ++ joined cs

-- Numbered from `k` on, of one file, each with a byte at least and `size` at most, and the last
-- one alone marked as the last.
abbrev pub AreChunks : ℕ → Text → ℕ → List FileChunk → Type 0
AreChunks size file_id k [] = Unit {0}
AreChunks size file_id k (c ∷ cs) =
    (c.file_id ≡ file_id)
    × (c.chunk_index ≡ k % 2 ^ 32)
    × (0 < length c.bytes)
    × (length c.bytes ≤ size)
    × (c.is_last ≡ is_empty cs)
    × AreChunks size file_id (k + 1) cs

is_empty_lem : (xs : Text) → is_empty xs ≡ leb (length xs) 0
is_empty_lem [] = refl
is_empty_lem (x ∷ xs) = ground arith

nonempty_take : (size : ℕ) (rest : Text) → 0 < size → is_empty (take size rest) ≡ is_empty rest
nonempty_take zero rest h = absurd (omega arith)
nonempty_take (suc size) [] h = refl
nonempty_take (suc size) (b ∷ rest) h = refl

take_short : (size : ℕ) (rest : Text) → length (take size rest) < size → take size rest ≡ rest
take_short zero rest h = absurd (omega arith)
take_short (suc size) [] h = refl
take_short (suc size) (b ∷ rest) h = ap (b ∷◌) (take_short size rest (omega arith))

module _ (size : ℕ) (file_id : Text) (file_size : ℕ) (room : 0 < size) where
  abbrev free : ℕ → Bool
  free round = false

  -- Without an interruption the chunks are the rest of the file.
  joined-chunks :
      (fuel round total : ℕ) (rest : Text)
      → length rest < fuel
      → joined (chunks size free file_id file_size fuel round total rest) ≡ rest
  unfolding chunks
  joined-chunks zero round total rest h = absurd (omega arith)
  joined-chunks (suc fuel) round total [] h = rw (nonempty_take size [] room)
  joined-chunks (suc fuel) round total (b ∷ rest) h =
      rw (nonempty_take size (b ∷ rest) room)
        (elim (Bool-cases (ltb (length (take size (b ∷ rest))) size)) [
          | inl short ↦ rw (short, append-nil) (take_short size (b ∷ rest) (ltb→lt _ _ short))
          | inr full ↦ rw full (
              ap (◌++◌ (take size (b ∷ rest))) (
                joined-chunks fuel (round + 1) (total + length (take size (b ∷ rest)))
                  (drop size (b ∷ rest)) (omega (arith, length-drop size (b ∷ rest))))
              ∙ take-append-drop size (b ∷ rest))
        ])

  -- There is a chunk exactly if there is a byte.
  is_empty-chunks :
      (fuel round total : ℕ) (rest : Text)
      → 0 < fuel
      → is_empty (chunks size free file_id file_size fuel round total rest) ≡ is_empty rest
  unfolding chunks
  is_empty-chunks zero round total rest h = absurd (omega arith)
  is_empty-chunks (suc fuel) round total rest h = rw (nonempty_take size rest room) (ground arith)

  chunks-AreChunks :
      (fuel round total : ℕ) (rest : Text)
      → length rest < fuel
      → file_size ≡ total + length rest
      → AreChunks size file_id round (chunks size free file_id file_size fuel round total rest)
  unfolding chunks
  chunks-AreChunks zero round total rest h e = absurd (omega arith)
  chunks-AreChunks (suc fuel) round total [] h e = rw (nonempty_take size [] room) tt
  chunks-AreChunks (suc fuel) round total (b ∷ rest) h e =
      let got = length-take size (b ∷ rest) in
      rw (nonempty_take size (b ∷ rest) room)
        (elim (Bool-cases (ltb (length (take size (b ∷ rest))) size)) [
          | inl short ↦ rw short (refl, refl, omega (arith, got), omega (arith, got), refl, tt)
          | inr full ↦ rw full (
            refl,
            refl,
            omega (arith, got),
            omega (arith, got),
            sym (
                is_empty-chunks fuel (round + 1) (total + length (take size (b ∷ rest)))
                  (drop size (b ∷ rest)) (omega arith)
                ∙ ground
                    (arith, got, length-drop size (b ∷ rest), is_empty_lem (drop size (b ∷ rest)))),
            chunks-AreChunks fuel (round + 1) (total + length (take size (b ∷ rest)))
                (drop size (b ∷ rest)) (omega (arith, got, length-drop size (b ∷ rest)))
                (omega (arith, got, length-drop size (b ∷ rest))),
          )
        ])

-- When nothing interrupts the loop, `size` is positive and the file has the size that was announced:
-- the chunks join to the whole file, are numbered from 0 modulo 2^32, belong to the file id, have a
-- byte at least and `size` at most, and the last one alone is marked as the last.
pub chunks-deliver :
    (size : ℕ) (file_id content : Text)
    → 0 < size
    → let sent =
        chunks size (λ round. false) file_id (length content) (suc (length content)) 0 0 content in
      (joined sent ≡ content) × AreChunks size file_id 0 sent
chunks-deliver size file_id content room = (
  joined-chunks size file_id (length content) room (suc (length content)) 0 0 content (omega arith),
  chunks-AreChunks size file_id (length content) room (suc (length content)) 0 0 content
      (omega arith) (omega arith),
)

-- Wherever the loop is interrupted, what it has sent is a beginning of what was left of the file.
pub chunks-IsPrefix :
    (size : ℕ) (stops : ℕ → Bool) (file_id : Text) (file_size fuel round total : ℕ) (rest : Text)
    → (unsent : Text) × (joined (chunks size stops file_id file_size fuel round total rest)
          ++ unsent
        ≡ rest)
unfolding chunks
chunks-IsPrefix size stops file_id file_size zero round total rest = (rest, refl)
chunks-IsPrefix size stops file_id file_size (suc fuel) round total rest =
    elim (Bool-cases (stops round)) [
      | inl e ↦ (rest, rw e refl)
      | inr e ↦ elim (Bool-cases (is_empty (take size rest))) [
        | inl none_left ↦ (rest, rw (e, none_left) refl)
        | inr some_left ↦ elim (Bool-cases (ltb (length (take size rest)) size)) [
          | inl short ↦
              (drop size rest, rw (e, some_left, short, append-nil) (take-append-drop size rest))
          | inr full ↦
              let (unsent, p) =
                chunks-IsPrefix size stops file_id file_size fuel (round + 1)
                  (total + length (take size rest)) (drop size rest) in
              (
                unsent,
                rw (e, some_left, full, append_assoc)
                    (ap (◌++◌ (take size rest)) p ∙ take-append-drop size rest),
              )
        ]
      ]
    ]
