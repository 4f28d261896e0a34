-- ===== src/Lib.antt =====
-- The byte buffers, the events and the asynchronous context of winterjs, and its base64 codec.
--
-- winterjs runs JavaScript workers in a Rust host and gives them globals and modules of its own, written
-- in JavaScript. The library models four of these files:
--
--   src/builtins/internal_js_modules/__winterjs_internal/base64-js.js -- Base64.antt
--   src/builtins/internal_js_modules/node/buffer.js -- Buffer.antt and the modules below it
--   src/builtins/js_globals/event.js -- Events.antt and the modules below it
--   src/builtins/internal_js_modules/node/async_hooks.js -- AsyncHooks.antt and the modules below it
--
-- Base64 has the tables, `getLens`, `byteLength`, `toByteArray`, `encodeChunk` and `fromByteArray`.
-- Buffer has the checks `checkOffset`, `checkInt`, `checkBounds`, `checkIntBI` and `boundsError`, which
-- the accessors of its children call before they touch a byte:
--   Buffer/ReadUint, Buffer/ReadInt -- `readUIntLE` to `readBigInt64BE`
--   Buffer/WriteUint, Buffer/WriteInt, Buffer/BigInt -- `writeUIntLE` to `writeBigInt64BE`
--   Buffer/Compare -- `Buffer.compare`, `compare`, `equals`
--   Buffer/Swap -- `swap16`, `swap32`, `swap64`
--   Buffer/Slice, Buffer/Copy -- `slice`, `copy`
--   Buffer/Concat -- `createBuffer`, `checked`, `allocUnsafe`, `Buffer.concat`, which calls `copy`
--   Buffer/Blit -- `blitBuffer`, and `asciiWrite`, `asciiSlice`, `latin1Slice` on it
--   Buffer/Hex -- `hexSlice`, `hexWrite`
--   Buffer/Utf16 -- `ucs2Write`, `utf16leSlice`, which call `blitBuffer` and `slice`
--   Buffer/Utf8 -- `utf8ToBytes`, `utf8Slice`
--   Buffer/Encoding -- the names of the encodings and `isEncoding`; below it Clean with `base64clean`,
--     `base64ToBytes` and the codec on them, Write with `write`, Text with `toString` and `slowToString`,
--     and Construct with `byteLength` and `fromString`, which choose between the transcoders above
--   Buffer/Fill -- `fill`, and `alloc`, which calls it; a value may be a view of the buffer that it fills
--   Buffer/From -- `from` and its forms for arrays, array buffers and objects, and `toJSON`
--   Buffer/Float -- `readFloatLE` to `writeDoubleBE`
--   Buffer/Search -- `bidirectionalIndexOf`, `arrayIndexOf`, `indexOf`, `lastIndexOf`, `includes`; below it
--     Wide with the search for a string and the two-byte encodings
--   Buffer/Mutation -- calls, in any order, of the methods that change a buffer, but for those that write
--     floats and doubles
-- Buffer/Encoding/Spec has the bytes that a string stands for and the text of bytes, in each encoding.
-- Buffer/Window has the numbers that bytes stand for and the splice of bytes into a buffer, which the
-- accessors are specified by. The modules named Runs have the theorems at concrete inputs.
--
-- Events has the class `Event` with its flags; Events/Path its `composedPath`; Events/Target the class
-- `EventTarget`, with `addEventListener`, `removeEventListener`, `dispatchEvent` and the closures that
-- abort signals keep. Events/Target/Registry has what a target promises: for each type a list of
-- callbacks with a capture. Events/Target/Dispatch is about callbacks that change the world, the target
-- that dispatches included.
--
-- AsyncHooks has the module's state, the class `AsyncContextFrame`, `Scope` and `StorageKey`;
-- AsyncHooks/Api the exported classes `AsyncResource` and `AsyncLocalStorage`; AsyncHooks/Promises the
-- hooks that the engine calls for promises; AsyncHooks/Timers `setTimeout`, `setInterval` and
-- `queueMicrotask`. AsyncHooks/View has what the frames are for: the map from keys to values that running
-- code sees, and the relation of a world to a later one.
--
-- A buffer is the list of its bytes, and a method that writes returns the new list with its result; a
-- view is its bounds, or the bytes between them. A string is the list of its UTF-16 code units, and a
-- number where it is only compared, such as the type of an event. A number is an integer: fractions and
-- NaN as arguments are not modelled but for the offset of a search, and sums and products are exact,
-- which those of a double are below 2 ^ 53, so that `ByteLength`, the argument of the accessors that read
-- a variable number of bytes, is at most six.
-- `x >>> 0` is `to_uint32`; an int32 is held as its bit pattern (Js/Int32). An element read out of range
-- is `none`, for undefined, and a result of arithmetic on it is `none`, for NaN. A thrown error is `err`
-- with a constructor of Js.Error. An offset is any integer where the code converts it, and a number
-- inside the buffer where its caller has checked it (`hexWrite`, `ucs2Write`, `asciiWrite`,
-- `blitBuffer`, `utf8Slice`). Objects that the code compares by identity are numbers: callbacks, signals, frames,
-- keys, promises. Code that changes state and may throw is an `Action` (Js/Action), which keeps what was
-- written before a throw; a `finally` block is a function on states.
--
-- Functions of the engine are arguments of the definitions that call them: the search methods of typed
-- arrays, `toLowerCase`, the original timers, `eval`, the state of a promise, whether a signal is aborted. What the
-- garbage collector does to the keys of an `AsyncLocalStorage` is `reset`, at any time.
--
-- Loops are recursions on the rounds that are left, which the code computes before it starts, or on
-- the bytes, code units, items or listeners not looked at yet. The forward search of `arrayIndexOf` goes
-- back after a mismatch, so its rounds are fuel: `enough` is the length of the value and one more for
-- each start, and it is enough since every start is left after at most as many rounds; `enough_wide` is the
-- same count for the two-byte encodings. `utf8Slice` takes
-- at least one byte in a round, so its rounds are the bytes, and more rounds change nothing.
--
-- The third-party library of ieee754.js is an argument too: its `read` and `write` are the record `Ieee754` of
-- Buffer/Float, and `Ieee754Laws` what its documentation promises of them.
--
-- Not modelled: ieee754.js itself; `lastIndexOf` in two-byte encodings; the constructor `Buffer`, `inspect`
-- and the error classes of buffer.js; `executionAsyncId` and `createHook`, which have no state; the stream
-- glue; and the host in Rust.
pub mod Common
pub mod Js
pub mod Base64
pub mod Buffer
pub mod Events
pub mod AsyncHooks
