-- ===== src/Buffer/Kept.antt =====
-- What the methods that change a buffer keep of it: its elements are bytes, and it has its length.
use winterjs.Common.{ℕ, ◌%◌, ◌≡◌, ◌∙◌, List, length, length-set}
use winterjs.Js.{Result, ok, err, store, IsBytes}
use winterjs.Buffer.Window.{store-IsBytes}

pub record Kept (n : ℕ) (buf : List ℕ) : Type 0 where
  pub bytes : IsBytes buf
  pub size : length buf ≡ n

pub store-Kept : (n : ℕ) (buf : List ℕ) (i v : ℕ) → Kept n buf → Kept n (store buf i v)
store-Kept n buf i v k = record {
  bytes = store-IsBytes buf i v k.bytes;
  size = length-set buf i (v % 256) ∙ k.size;
}

-- A result that is kept where there is one.
abbrev pub KeptResult : ℕ → Result (List ℕ) → Type 0
KeptResult n (err e) = Unit {0}
KeptResult n (ok buf) = Kept n buf
