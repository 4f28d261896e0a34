-- ===== src/Js.antt =====
-- What the JavaScript modules share: thrown errors as values, and `Uint8Array` stores.
-- A string is the list of its UTF-16 code units, and a typed array the list of its bytes.
pub mod Int32
pub mod Action
use winterjs.Common.{ℕ, ◌%◌, ◌<◌, Bool, true, false, ◌≡◌, List, Option, none, some, set, All}

-- The errors that the modelled code throws, one constructor for each message.
pub data Error : Type 0 where
  -- `RangeError`
  beyond_length index_out_of_range value_out_of_bounds out_of_range_index : Error
  invalid_size too_large not_multiple invalid_array_length : Error
  target_start_out_of_bounds source_end_out_of_bounds : Error
  -- the `NodeError` classes
  err_out_of_range err_buffer_out_of_bounds : Error
  -- `Error`, `TypeError` and `DOMException`
  invalid_length no_current_target property_of_null invalid_event_state assertion_failed : Error
  not_a_function has_async_context wrong_value invalid_code_point : Error
  unknown_encoding no_longer_supported outside_bounds invalid_value encoding_not_string : Error
  unsupported_value offset_outside length_outside : Error
  thrown : ℕ → Error

pub data Result {ℓ} (A : Type ℓ) : Type ℓ where
  ok : A → Result A
  err : Error → Result A

infixl 5 ◌>>=◌
abbrev pub ◌>>=◌ {ℓ κ} : {A : Type ℓ} {B : Type κ} → Result A → (A → Result B) → Result B
ok result >>= next = next result
err error >>= next = err error

-- `if (failed) throw e`
abbrev pub throw_if : Bool → Error → Result (Unit {0})
throw_if true e = err e
throw_if false e = ok tt

-- A statement that returns nothing, and the next one.
infixl 5 ◌>>◌
abbrev pub ◌>>◌ {ℓ} : {B : Type ℓ} → Result (Unit {0}) → Result B → Result B
statement >> rest = statement >>= λ _. rest

abbrev pub IsByte : ℕ → Type 0
IsByte b = b < 256

abbrev pub IsBytes : List ℕ → Type 0
IsBytes = All IsByte

-- `arr[i] = v` on a `Uint8Array`: the value is cut to a byte, and a store out of range is ignored.
abbrev pub store : List ℕ → ℕ → ℕ → List ℕ
store arr i v = set arr i (v % 256)

-- An argument that is `none` where it is undefined, and its default.
abbrev pub or_default {ℓ} : {A : Type ℓ} → A → Option A → A
or_default d none = d
or_default d (some x) = x
