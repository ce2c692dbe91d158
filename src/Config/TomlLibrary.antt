-- ===== src/Config/TomlLibrary.antt =====
-- What src/config.cpp relies on of the TOML library: a record of its operations and their laws.
use ircord_client.Base.{
  ℕ, ◌<◌, ◌^◌, ◌≡◌, Bool, true, ◌&&◌, Option, none, some, List, if◌then◌else◌, Text, text_eq,
}
use ircord_client.Base.Assoc.{is_some}

-- `entry s k d` is the value that `contains` and `at` find under the key `k` of the table under `s`,
-- none where one of them is missing or not a table; `assign s k v d` is `d[s][k] = v`, none where it
-- throws, and `admits s d` says that it does not. `as_int` and the like are `find<int>` and the like,
-- none where they throw for the type; an `int` is its word of 32 bits.
pub record Toml (Value Float : Type 0) : Type 0 where
  pub empty : Value
  pub entry : Text → Text → Value → Option Value
  pub admits : Text → Value → Bool
  pub assign : Text → Text → Value → Value → Option Value
  pub as_text : Value → Option Text
  pub as_int : Value → Option ℕ
  pub as_bool : Value → Option Bool
  pub as_float : Value → Option Float
  pub as_texts : Value → Option (List Text)
  pub of_text : Text → Value
  pub of_int : ℕ → Value
  pub of_bool : Bool → Value
  pub of_float : Float → Value
  pub of_texts : List Text → Value
  pub parse : Text → Option Value
  pub print : Value → Text
  pub as_text-of_text : (x : Text) → as_text (of_text x) ≡ some x
  pub as_int-of_int : (x : ℕ) → x < 2 ^ 32 → as_int (of_int x) ≡ some x
  pub as_bool-of_bool : (x : Bool) → as_bool (of_bool x) ≡ some x
  pub as_float-of_float : (x : Float) → as_float (of_float x) ≡ some x
  pub as_texts-of_texts : (x : List Text) → as_texts (of_texts x) ≡ some x
  pub entry-empty : (s k : Text) → entry s k empty ≡ none
  pub admits-empty : (s : Text) → admits s empty ≡ true
  pub is_some-assign : (s k : Text) (v d : Value) → is_some (assign s k v d) ≡ admits s d
  pub admits-assign :
      (s k : Text) (v d d' : Value) (s' : Text)
      → assign s k v d ≡ some d'
      → admits s' d' ≡ admits s' d
  pub entry-assign :
      (s k : Text) (v d d' : Value) (s' k' : Text)
      → assign s k v d ≡ some d'
      → entry s' k' d' ≡ (if text_eq s s' && text_eq k k' then some v else entry s' k' d)
  -- What is printed is read as a document with the same entries.
  pub parse-print :
      (d : Value)
      → (d' : Value) × (parse (print d) ≡ some d') × ((s k : Text) → entry s k d' ≡ entry s k d)
