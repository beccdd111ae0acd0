-- ===== src/Sidecar.antt =====
-- What the sidecar does with a workflow child (apps/sidecar/src/workflow-child-spawner.ts): it reads
-- the child's control lines and its event frames. Texts are lists of character codes, and the decoder
-- of the stream's bytes is a parameter. `none` is out of fuel. What the runtime throws while it reads
-- is left out.
pub mod Lines
pub mod Groups
mod Tests
use workbench.Prelude.{
  ℕ, zero, suc, Bool, true, false, not, Option, none, some, List, [], ◌∷◌, ◌++◌, length, nat_eq,
  if◌then◌else◌,
}

abbrev pub Text : Type 0
Text = List ℕ

abbrev pub newline : ℕ
newline = 10

abbrev pub carriage_return : ℕ
carriage_return = 13

-- What `reader.read()` resolves to: `value` and `done`
pub record ReadResult (Bytes : Type 0) : Type 0 where
  pub value : Option Bytes
  pub done : Bool

-- A `TextDecoder` in use, with the bytes of an unfinished character in its state
pub record Decoder (Bytes : Type 0) : Type 1 where
  pub State : Type 0
  pub initial : State
  pub decode : State → Bytes → Text × State

abbrev pub is_blank : {A : Type 0} → List A → Bool
is_blank [] = true
is_blank (x ∷ xs) = false

abbrev pub put_before : ℕ → Option (Text × Text) → Option (Text × Text)
put_before c none = none
put_before c (some (line, rest)) = some (c ∷ line, rest)

-- `pending.indexOf("\n")` with the two slices
unfoldable pub cut_line : Text → Option (Text × Text)
cut_line [] = none
cut_line (c ∷ cs) = if nat_eq c newline then some ([], cs) else put_before c (cut_line cs)

-- `.replace(/\r$/, "")`
unfoldable pub without_cr : Text → Text
without_cr [] = []
without_cr (c ∷ cs) =
    let rest = without_cr cs in
    if is_blank cs then if nat_eq c carriage_return then [] else c ∷ [] else c ∷ rest

-- `if (line.length > 0) yield line`
abbrev pub yielded : Text → List Text → List Text
yielded line lines = if is_blank line then lines else line ∷ lines

-- The inner loop: the lines it yields, and what is left pending.
unfoldable pub drain : ℕ → Text → Option (List Text × Text)
unfolding cut_line without_cr
drain zero pending = none
drain (suc fuel) pending = elim (cut_line pending) [
  | none ↦ some ([], pending)
  | some (line, rest) ↦ elim (drain fuel rest) [
    | none ↦ none
    | some (lines, left) ↦ some (yielded (without_cr line) lines, left)
  ]
]

-- What is yielded before the rest of the lines
abbrev pub then_lines : List Text → Option (List Text) → Option (List Text)
then_lines lines none = none
then_lines lines (some more) = some (lines ++ more)

module _ {Bytes : Type 0} (decoder : Decoder Bytes) where
  -- The part of the loop under `value !== undefined`
  unfoldable pub take_value :
      decoder.State → Text → Option Bytes → Option (List Text × Text × decoder.State)
  unfolding drain
  take_value state pending none = some ([], pending, state)
  take_value state pending (some bytes) =
      let (text, after) = decoder.decode state bytes in
      elim (drain (suc (length (pending ++ text))) (pending ++ text)) [
        | none ↦ none
        | some (lines, left) ↦ some (lines, left, after)
      ]

  -- `ndjsonReaderFromReadableStream`, from the state of the loop on
  unfoldable pub read_lines : decoder.State → Text → List (ReadResult Bytes) → Option (List Text)
  unfolding take_value
  read_lines state pending [] = some []
  read_lines state pending (r ∷ rs) = elim (take_value state pending r.value) [
    | none ↦ none
    | some (lines, left, after) ↦
        let more = read_lines after left rs in
        then_lines lines (if r.done then some (yielded left []) else more)
  ]

-- `frameReaderFromFd`
module _ {Byte : Type 0} where
  abbrev pub yielded_frame : Option (List Byte) → List (List Byte) → List (List Byte)
  yielded_frame none frames = frames
  yielded_frame (some []) frames = frames
  yielded_frame (some (b ∷ bs)) frames = (b ∷ bs) ∷ frames

  unfoldable pub read_frames : List (ReadResult (List Byte)) → List (List Byte)
  read_frames [] = []
  read_frames (r ∷ rs) =
      let more = read_frames rs in yielded_frame r.value (if r.done then [] else more)
