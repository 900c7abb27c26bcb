-- ===== src/Sdk/Sse.antt =====
-- `readEventStream` of sdk/javascript/src/index.ts: the reader of a Server-Sent Events body.
pub mod Chunks
pub mod Frames
use flag_it.Common.{
  ℕ, zero, suc, ◌+◌, Bool, true, false, Option, none, some, List, [], ◌∷◌, ◌++◌, map, Text, codes,
  take, drop, length, filterb, ◌==◌, ◌&&◌, if◌then◌else◌,
}
use mathlib.Core.Option

-- `"\n"` as a code unit.
abbrev pub newline : ℕ
newline = 10

-- `buffer.indexOf('\n\n')`; `none` is -1.
unfoldable pub index_of_break : Text → Option ℕ
index_of_break [] = none
index_of_break (c ∷ []) = none
index_of_break (c ∷ d ∷ s) =
    if c == newline && d == newline then some 0 else Option.map suc (index_of_break (d ∷ s))

-- The inner `while`: the raw events that the buffer holds, and what is left of it. Each round
-- removes two characters at least, so the length of the buffer is fuel enough.
unfoldable pub drain : ℕ → Text → List Text × Text
drain zero buffer = ([], buffer)
drain (suc fuel) buffer = elim (index_of_break buffer) [
  | none ↦ ([], buffer)
  | some boundary ↦
      let (raws, rest) = drain fuel (drop (boundary + 2) buffer) in
      (take boundary buffer ∷ raws, rest)
]

-- `rawEvent.split('\n')`; the first argument is the line read so far.
unfoldable pub split_lines : Text → Text → List Text
split_lines line [] = line ∷ []
split_lines line (c ∷ s) = elim (c == newline) [
  | true ↦ line ∷ split_lines [] s
  | false ↦ split_lines (line ++ c ∷ []) s
]

-- `line.startsWith(prefix)`.
unfoldable pub starts_with : Text → Text → Bool
starts_with [] line = true
starts_with (p ∷ prefix) [] = false
starts_with (p ∷ prefix) (c ∷ line) = p == c && starts_with prefix line

abbrev pub data_prefix : Text
data_prefix = codes "data:"

-- `s.replace(/^ /, '')`.
unfoldable pub strip_space : Text → Text
strip_space [] = []
strip_space (c ∷ s) = if c == 32 then s else c ∷ s

-- `lines.join('\n')`.
unfoldable pub join_lines : List Text → Text
join_lines [] = []
join_lines (l ∷ []) = l
join_lines (l ∷ m ∷ ls) = l ++ newline ∷ join_lines (m ∷ ls)

-- The data payload of one raw event.
unfoldable pub event_data : Text → Text
unfolding split_lines starts_with strip_space join_lines
event_data raw = join_lines (
    map (λ line. strip_space (drop 5 line))
      (filterb (starts_with data_prefix) (split_lines [] raw)))

-- `if (data) onData(data)`.
unfoldable pub emit : List Text → List Text
unfolding event_data
emit [] = []
emit (raw ∷ raws) = elim (event_data raw) [ [] ↦ emit raws | c ∷ s ↦ (c ∷ s) ∷ emit raws ]

-- One turn of the outer loop: the chunk is appended and the buffer drained.
unfoldable pub feed : Text → Text → List Text × Text
unfolding drain index_of_break
feed buffer chunk = drain (length (buffer ++ chunk)) (buffer ++ chunk)

-- The loop over the chunks that the body yields: what `onData` is called with, in order, and the
-- buffer at the end of the body.
unfoldable pub read_from : Text → List Text → List Text × Text
unfolding feed emit
read_from buffer [] = ([], buffer)
read_from buffer (chunk ∷ chunks) =
    let (raws, rest) = feed buffer chunk in
    let (later, final) = read_from rest chunks in (emit raws ++ later, final)

unfoldable pub read_event_stream : List Text → List Text
unfolding read_from
read_event_stream chunks = (read_from [] chunks).0
