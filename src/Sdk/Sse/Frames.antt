-- ===== src/Sdk/Sse/Frames.antt =====
-- `readEventStream` reads what the server writes: internal/server/stream.go frames each payload as
-- the event `put`.
use mathlib.Core.List.{append_assoc, append-nil}
use native.Mathlib.Nat.{zero-add}
use Prim.Native.Nat.add
use flag_it.Common.{
  ℕ, zero, suc, ◌+◌, ◌≤◌, ◌<◌, ◌≡◌, ◌≢◌, refl, ap, some, List, [], ◌∷◌, ◌++◌, map, arith, Text,
  codes, All, take, drop, concat, filterb, length, length-append,
}
use flag_it.Sdk.Sse.{
  newline, index_of_break, drain, split_lines, event_data, data_prefix, starts_with, strip_space,
  join_lines, emit, read_event_stream,
}
use flag_it.Sdk.Sse.Chunks.{drain-none, drain-some, read_event_stream_once}

abbrev pub IsLine : Text → Type 0
IsLine s = All (λ c. c ≢ newline) s

-- The lines of one event, as far as the blank line.
abbrev raw_put : Text → Text
raw_put payload = codes "event: put" ++ newline ∷ codes "data: " ++ payload

-- fmt.Fprintf(w, "event: put\ndata: %s\n\n", payload)
unfoldable pub put_event : Text → Text
put_event payload = raw_put payload ++ newline ∷ newline ∷ []

index_of_break_line :
    (m rest : Text) → IsLine m → index_of_break (m ++ newline ∷ newline ∷ rest) ≡ some (length m)
unfolding index_of_break
index_of_break_line [] rest h = refl
index_of_break_line (c ∷ []) rest h = ground arith
index_of_break_line (c ∷ d ∷ m) rest h = ground (arith, index_of_break_line (d ∷ m) rest h.1)

index_of_break_put :
    (payload rest : Text)
    → IsLine payload
    → index_of_break (raw_put payload ++ newline ∷ newline ∷ rest) ≡ some (length (raw_put payload))
unfolding index_of_break
index_of_break_put payload rest h = rw (index_of_break_line (32 ∷ payload) rest (omega arith, h))

split_lines_line : (acc s : Text) → IsLine s → split_lines acc s ≡ (acc ++ s) ∷ []
unfolding split_lines
split_lines_line acc [] h = rw append-nil
split_lines_line acc (c ∷ s) h =
    ground (arith, split_lines_line (acc ++ c ∷ []) s h.1, append_assoc acc (c ∷ []) s)

event_data_put : (payload : Text) → IsLine payload → event_data (raw_put payload) ≡ payload
unfolding event_data
event_data_put payload h =
    ap
      (λ ls. join_lines (
        map (λ line. strip_space (drop 5 line))
          (filterb (starts_with data_prefix) (codes "event: put" ∷ ls))))
      (split_lines_line (codes "data: ") payload h)

take-length : (s t : Text) → take (length s) (s ++ t) ≡ s
take-length [] t = refl
take-length (c ∷ s) t = ap (λ r. c ∷ r) (take-length s t)

drop-length : (s t : Text) (n : ℕ) → drop (length s + n) (s ++ t) ≡ drop n t
drop-length [] t n = rw zero-add
drop-length (c ∷ s) t n = rw add.suc (drop-length s t n)

put_event-append : (p rest : Text) → put_event p ++ rest ≡ raw_put p ++ newline ∷ newline ∷ rest
unfolding put_event
put_event-append p rest = append_assoc (raw_put p) (newline ∷ newline ∷ []) rest

drain_put :
    (f : ℕ) (p rest : Text)
    → IsLine p
    → drain (suc f) (put_event p ++ rest) ≡ (raw_put p ∷ (drain f rest).0, (drain f rest).1)
drain_put f p rest h =
    let whole : Text = raw_put p ++ newline ∷ newline ∷ rest in
    rw (
      put_event-append p rest,
      drain-some f whole (length (raw_put p)) (index_of_break_put p rest h),
      take-length (raw_put p) (newline ∷ newline ∷ rest),
      drop-length (raw_put p) (newline ∷ newline ∷ rest) 2,
    )

put_event_pos : (p : Text) → 0 < length (put_event p)
unfolding put_event
put_event_pos p = omega arith

drain_puts :
    (f : ℕ) (payloads : List Text)
    → All IsLine payloads
    → length (concat (map put_event payloads)) ≤ f
    → drain f (concat (map put_event payloads)) ≡ (map raw_put payloads, [])
drain_puts f [] h k = drain-none f [] (unfold index_of_break in refl)
drain_puts zero (p ∷ ps) h k =
    absurd (omega (arith, put_event_pos p, length-append (put_event p) (concat (map put_event ps))))
drain_puts (suc f) (p ∷ ps) h k =
    let fits : length (concat (map put_event ps)) ≤ f =
      omega (arith, put_event_pos p, length-append (put_event p) (concat (map put_event ps))) in
    rw (drain_put f p (concat (map put_event ps)) h.0, drain_puts f ps h.1 fits)

emit_puts :
    (payloads : List Text)
    → All (λ p. IsLine p × (p ≢ [])) payloads
    → emit (map raw_put payloads) ≡ payloads
unfolding emit
emit_puts [] h = refl
emit_puts ([] ∷ ps) h = absurd (h.0.1 refl)
emit_puts ((c ∷ s) ∷ ps) h = ground (arith, event_data_put (c ∷ s) h.0.0, emit_puts ps h.1)

lines : (payloads : List Text) → All (λ p. IsLine p × (p ≢ [])) payloads → All IsLine payloads
lines [] h = tt
lines (p ∷ ps) h = (h.0.0, lines ps h.1)

-- Whatever the way in which the text of the server's events is cut into chunks, `onData` is called
-- with the payloads that the server sent, in order, if each is one line and is not empty.
pub read_event_stream-put_event :
    (payloads chunks : List Text)
    → All (λ p. IsLine p × (p ≢ [])) payloads
    → concat chunks ≡ concat (map put_event payloads)
    → read_event_stream chunks ≡ payloads
read_event_stream-put_event payloads chunks h same =
    rw
      (
        read_event_stream_once chunks,
        same,
        drain_puts (length (concat (map put_event payloads))) payloads (lines payloads h)
            (omega arith),
      )
      (emit_puts payloads h)
