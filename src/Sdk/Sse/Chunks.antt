-- ===== src/Sdk/Sse/Chunks.antt =====
-- How the body is cut into chunks does not matter to `readEventStream`.
use flag_it.Common.{
  ℕ, zero, suc, ◌+◌, ◌≤◌, ◌≡◌, refl, sym, ap, ◌∙◌, inl, inr, none, some, List, [], ◌∷◌, ◌++◌, arith,
  Text, take, drop, concat, length, length-append, length-drop, take-append, drop-append, ◌==◌,
  ◌&&◌, Bool-cases, Option-cases,
}
use mathlib.Core.Option
use mathlib.Core.List.{append_assoc, append-nil}
use flag_it.Sdk.Sse.{newline, index_of_break, drain, emit, feed, read_from, read_event_stream}

index_of_break_bound : (s : Text) (i : ℕ) → index_of_break s ≡ some i → i + 2 ≤ length s
unfolding index_of_break
index_of_break_bound [] i h = ground arith
index_of_break_bound (c ∷ []) i h = ground arith
index_of_break_bound (c ∷ d ∷ s) i h = elim (Bool-cases (c == newline && d == newline)) [
  | inl here ↦ ground arith
  | inr later ↦
      let (j, found, same) =
        (Option.map-eq-some_iff suc (index_of_break (d ∷ s))).0 (rw later at h) in
      omega (arith, index_of_break_bound (d ∷ s) j found, same)
]

index_of_break-append :
    (s t : Text) (i : ℕ) → index_of_break s ≡ some i → index_of_break (s ++ t) ≡ some i
unfolding index_of_break
index_of_break-append [] t i h = ground arith
index_of_break-append (c ∷ []) t i h = ground arith
index_of_break-append (c ∷ d ∷ s) t i h = elim (Bool-cases (c == newline && d == newline)) [
  | inl here ↦ ground arith
  | inr later ↦
      let (j, found, same) = (Option.map-eq-some_iff _ _).0 (rw later at h) in
      rw (later, index_of_break-append (d ∷ s) t j found, same)
]

pub drain-none : (f : ℕ) (b : Text) → index_of_break b ≡ none → drain f b ≡ ([], b)
unfolding drain
drain-none zero b h = refl
drain-none (suc f) b h = rw (h, drain)

pub drain-some :
    (f : ℕ) (b : Text) (i : ℕ)
    → index_of_break b ≡ some i
    → drain (suc f) b ≡ (take i b ∷ (drain f (drop (i + 2) b)).0, (drain f (drop (i + 2) b)).1)
unfolding drain
drain-some f b i h = rw (h, drain)

index_of_break_empty : (b : Text) → length b ≤ 0 → index_of_break b ≡ none
unfolding index_of_break
index_of_break_empty [] h = refl
index_of_break_empty (c ∷ b) h = absurd (omega arith)

pub length_after_break :
    (b : Text) (i f : ℕ)
    → index_of_break b ≡ some i
    → length b ≤ suc f
    → length (drop (i + 2) b) ≤ f
length_after_break b i f h k = omega (arith, index_of_break_bound b i h, length-drop (i + 2) b)

pub drain_fuel : (f g : ℕ) (b : Text) → length b ≤ f → length b ≤ g → drain f b ≡ drain g b
drain_fuel zero g b h k =
    drain-none zero b (index_of_break_empty b h) ∙ sym (drain-none g b (index_of_break_empty b h))
drain_fuel (suc f) zero b h k =
    drain-none (suc f) b (index_of_break_empty b k)
    ∙ sym (drain-none zero b (index_of_break_empty b k))
drain_fuel (suc f) (suc g) b h k = elim (Option-cases (index_of_break b)) [
  | inl missed ↦ drain-none (suc f) b missed ∙ sym (drain-none (suc g) b missed)
  | inr (i, found) ↦
      let ih =
        drain_fuel f g (drop (i + 2) b) (length_after_break b i f found h)
          (length_after_break b i g found k) in
      rw (drain-some f b i found, drain-some g b i found, ih)
]

drain_complete : (f : ℕ) (b : Text) → length b ≤ f → index_of_break (drain f b).1 ≡ none
drain_complete zero b h =
    rw (drain-none zero b (index_of_break_empty b h)) (index_of_break_empty b h)
drain_complete (suc f) b h = elim (Option-cases (index_of_break b)) [
  | inl missed ↦ rw (drain-none (suc f) b missed) missed
  | inr (i, found) ↦
      rw (drain-some f b i found)
        (drain_complete f (drop (i + 2) b) (length_after_break b i f found h))
]

-- The inner loop ends: with the length of the buffer as fuel it has stopped by its own test, so
-- that no blank line is left in the buffer, and more fuel changes nothing.
pub drain_ends :
    (fuel : ℕ) (buffer : Text)
    → length buffer ≤ fuel
    → (drain fuel buffer ≡ drain (length buffer) buffer)
      × (index_of_break (drain fuel buffer).1 ≡ none)
drain_ends fuel buffer h =
    (drain_fuel fuel (length buffer) buffer h (omega arith), drain_complete fuel buffer h)

-- Draining early and again later finds the same events as draining all at once.
drain-append_none :
    (f g h : ℕ) (b c : Text)
    → index_of_break b ≡ none
    → length (b ++ c) ≤ g
    → length ((drain f b).1 ++ c) ≤ h
    → drain g (b ++ c)
      ≡ ((drain f b).0 ++ (drain h ((drain f b).1 ++ c)).0, (drain h ((drain f b).1 ++ c)).1)
drain-append_none f g h b c missed q r =
    rw (drain-none f b missed) (drain_fuel g h (b ++ c) q (rw (drain-none f b missed) at r))

drain-append :
    (f g h : ℕ) (b c : Text)
    → length b ≤ f
    → length (b ++ c) ≤ g
    → length ((drain f b).1 ++ c) ≤ h
    → drain g (b ++ c)
      ≡ ((drain f b).0 ++ (drain h ((drain f b).1 ++ c)).0, (drain h ((drain f b).1 ++ c)).1)
drain-append zero g h b c p q r = drain-append_none zero g h b c (index_of_break_empty b p) q r
drain-append (suc f) zero h b c p q r =
    drain-append_none (suc f) zero h b c (index_of_break_empty b (omega (arith, length-append b c)))
      q r
drain-append (suc f) (suc g) h b c p q r = elim (Option-cases (index_of_break b)) [
  | inl missed ↦ drain-append_none (suc f) (suc g) h b c missed q r
  | inr (i, found) ↦
      let fits = index_of_break_bound b i found in
      let after = index_of_break-append b c i found in
      let ih =
        drain-append f g h (drop (i + 2) b) c (length_after_break b i f found p)
          (rw (← drop-append (i + 2) b c fits) (length_after_break (b ++ c) i g after q))
          (rw (drain-some f b i found) at r) in
      rw (
        drain-some g (b ++ c) i after,
        drain-some f b i found,
        take-append i b c (omega arith),
        drop-append (i + 2) b c fits,
        ih,
      )
]

emit-append : (xs ys : List Text) → emit (xs ++ ys) ≡ emit xs ++ emit ys
unfolding emit
emit-append [] ys = refl
emit-append (x ∷ xs) ys = ground (arith, emit-append xs ys)

-- The events of `chunk` after `buffer`, and the buffer that they leave.
feed_split :
    (buffer c d : Text)
    → feed buffer (c ++ d)
      ≡ ((feed buffer c).0 ++ (feed (feed buffer c).1 d).0, (feed (feed buffer c).1 d).1)
unfolding feed
feed_split buffer c d = rw (← append_assoc) (
    drain-append (length (buffer ++ c)) (length ((buffer ++ c) ++ d))
      (length ((drain (length (buffer ++ c)) (buffer ++ c)).1 ++ d)) (buffer ++ c) d (omega arith)
      (omega arith) (omega arith))

feed_complete : (buffer c : Text) → index_of_break (feed buffer c).1 ≡ none
unfolding feed
feed_complete buffer c = drain_complete (length (buffer ++ c)) (buffer ++ c) (omega arith)

feed_nothing : (buffer : Text) → index_of_break buffer ≡ none → feed buffer [] ≡ ([], buffer)
unfolding feed
feed_nothing buffer h = rw append-nil (drain-none (length buffer) buffer h)

-- Reading a body chunk by chunk hands `onData` the same payloads in the same order as reading it in
-- one piece, and leaves the same text in the buffer.
read_from-concat :
    (buffer : Text) (chunks : List Text)
    → index_of_break buffer ≡ none
    → read_from buffer chunks
      ≡ (emit (feed buffer (concat chunks)).0, (feed buffer (concat chunks)).1)
unfolding read_from
read_from-concat buffer [] h = rw (feed_nothing buffer h) (unfold emit in refl)
read_from-concat buffer (c ∷ cs) h =
    let ih = read_from-concat (feed buffer c).1 cs (feed_complete buffer c) in
    rw (feed_split buffer c (concat cs), emit-append, ih)

-- The payloads are those of a body that arrives in one piece.
pub read_event_stream_once :
    (chunks : List Text)
    → read_event_stream chunks ≡ emit (drain (length (concat chunks)) (concat chunks)).0
unfolding read_event_stream feed
read_event_stream_once chunks =
    ap (λ r. r.0) (read_from-concat [] chunks (unfold index_of_break in refl))

-- What `onData` is called with depends only on the text of the body: two ways to cut the same text
-- into chunks give the same payloads in the same order.
pub read_event_stream_chunking :
    (chunks other : List Text)
    → concat chunks ≡ concat other
    → read_event_stream chunks ≡ read_event_stream other
read_event_stream_chunking chunks other same =
    read_event_stream_once chunks
    ∙ ap (λ t. emit (drain (length t) t).0) same
    ∙ sym (read_event_stream_once other)
