-- ===== src/Buffer/Mutation/Safety.antt =====
-- Calls in a row leave an array of bytes of the same length, whatever their arguments are.
use winterjs.Common.{All}
use winterjs.Js.{IsBytes}
use winterjs.Buffer.Kept.{Kept}
use winterjs.Buffer.Utf8.Total.{IsUnit}
use winterjs.Buffer.Encoding.{Encoding}
use winterjs.Buffer.Mutation.{
  Call, sized, signed, fixed, big, swapped16, swapped32, swapped64, copied, written, filled,
}

-- A call whose arguments have their types: a source is an array of bytes, and a string is made of code
-- units.
abbrev pub IsCall : Call → Type 0
IsCall (copied source target_start start end) = IsBytes source
IsCall (written string args) = All IsUnit string
IsCall (sized method value offset byte_length no_assert) = Unit {0}
IsCall (signed method value offset byte_length no_assert) = Unit {0}
IsCall (fixed method value offset no_assert) = Unit {0}
IsCall (big method value offset) = Unit {0}
IsCall swapped16 = Unit {0}
IsCall swapped32 = Unit {0}
IsCall swapped64 = Unit {0}
IsCall (filled value args) = Unit {0}
