-- ===== src/Logstore/StoreLaws.antt =====
-- internal/logstore/store.go: the logs keep to their budget and are read as they were captured.
use r1s.Base.{
  ℕ, zero, suc, ◌+◌, ◌-◌, ◌≤◌, ◌≡◌, ◌↔◌, ◌⊎◌, refl, sym, ap, subst, ◌∙◌, ◌||◌, not, true, false,
  some, List, [], ◌∷◌, ◌++◌, Bytes, get, length, take, drop, min, beq, ltb, ◌==◌, ok, arith,
  Ensures, beq_iff, stop_if_rule, present_rule, bind_rule, length-append, take_all, length-take_le,
}
use mathlib.Core.List.{append_assoc, append-nil}
use r1s.Logstore.Store.{
  Metadata, LogFile, Directory, Store, read_metadata, stream_file, LogChunk, chunk_of, read,
  capture_chunk, capture_stream,
}

-- The bytes that a source gives in all its reads.
abbrev pub source_bytes : List Bytes → Bytes
source_bytes [] = []
source_bytes (b ∷ bs) = b ++ source_bytes bs

take-append_long :
    (n : ℕ) (xs ys : Bytes)
    → take n (xs ++ ys) ≡ take (min (length xs) n) xs ++ take (n - min (length xs) n) ys
take-append_long zero xs ys =
    let none_taken : min (length xs) 0 ≡ 0 = omega arith in rw none_taken refl
take-append_long (suc n) [] ys =
    let none_taken : min 0 (suc n) ≡ 0 = omega arith in
    let all_left : suc n - 0 ≡ suc n = omega arith in rw (none_taken, all_left) refl
take-append_long (suc n) (x ∷ xs) ys =
    let one_more : min (suc (length xs)) (suc n) ≡ suc (min (length xs) n) = omega arith in
    let less : suc n - suc (min (length xs) n) ≡ n - min (length xs) n = omega arith in
    rw (one_more, less) (ap (◌∷◌ x) (take-append_long n xs ys))

-- What Capture keeps of a stream is the first bytes that its source gave, up to the room that was
-- left, however the reads cut them; it marks the stream if and only if there were more, or it was
-- marked before.
pub capture_stream-take :
    (remaining : ℕ) (f : LogFile) (bs : List Bytes)
    → ((capture_stream remaining f bs).contents ≡ f.contents ++ take remaining (source_bytes bs))
      × ((capture_stream remaining f bs).truncated
          ≡ (f.truncated || ltb remaining (length (source_bytes bs))))
      × (length (capture_stream remaining f bs).contents ≤ length f.contents + remaining)
unfolding capture_stream capture_chunk
capture_stream-take remaining f [] =
    let nothing : take remaining (source_bytes []) ≡ [] = take_all remaining [] (omega arith) in
    (rw nothing (sym (append-nil f.contents)), ground arith, omega arith)
capture_stream-take remaining f (b ∷ bs) =
    let keep : ℕ = min (length b) remaining in
    let next : LogFile = capture_chunk remaining f b in
    let rest = capture_stream-take (remaining - keep) next bs in
    (
      rest.0
          ∙ append_assoc f.contents (take keep b) (take (remaining - keep) (source_bytes bs))
          ∙ ap (◌++◌ f.contents) (sym (take-append_long remaining b (source_bytes bs))),
      rest.1 ∙ ground (arith, length-append b (source_bytes bs)),
      omega (arith, rest.2, length-append f.contents (take keep b), length-take_le keep b),
    )

drop-drop : (a b : ℕ) (xs : Bytes) → drop (a + b) xs ≡ drop b (drop a xs)
drop-drop zero b xs = let same : 0 + b ≡ b = omega arith in rw same refl
drop-drop (suc a) zero [] = let same : suc a + 0 ≡ suc a = omega arith in rw same refl
drop-drop (suc a) (suc b) [] =
    let same : suc a + suc b ≡ suc (a + suc b) = omega arith in rw same refl
drop-drop (suc a) b (x ∷ xs) =
    let same : suc a + b ≡ suc (a + b) = omega arith in rw same (drop-drop a b xs)

take-rest : (n : ℕ) (xs : Bytes) → take n xs ++ drop (length (take n xs)) xs ≡ xs
take-rest zero xs = refl
take-rest (suc n) [] = refl
take-rest (suc n) (x ∷ xs) = ap (◌∷◌ x) (take-rest n xs)

length-drop : (n : ℕ) (xs : Bytes) → n ≤ length xs → length (drop n xs) + n ≡ length xs
length-drop zero xs h = omega arith
length-drop (suc n) [] h = omega arith
length-drop (suc n) (x ∷ xs) h = omega (arith, length-drop n xs (omega arith))

length-take : (n : ℕ) (xs : Bytes) → n ≤ length xs → length (take n xs) ≡ n
length-take zero xs h = refl
length-take (suc n) [] h = ground arith
length-take (suc n) (x ∷ xs) h = ap suc (length-take n xs (omega arith))

-- What a chunk says of the file that it was read from.
pub record Covers (f : LogFile) (offset limit : ℕ) (chunk : LogChunk) : Type 0 where
  pub inside : offset ≤ length f.contents
  pub next : chunk.contents ++ drop chunk.next_offset f.contents ≡ drop offset f.contents
  pub advances : chunk.next_offset ≡ offset + length chunk.contents
  pub bounded : length chunk.contents ≤ limit
  pub ends : (chunk.eof ≡ true) ↔ (chunk.next_offset ≡ length f.contents)
  pub moves : (chunk.eof ≡ true) ⊎ (1 ≤ length chunk.contents)

chunk_of-Covers :
    (f : LogFile) (offset limit : ℕ)
    → offset ≤ length f.contents
    → 1 ≤ limit
    → Covers f offset limit (chunk_of f offset limit)
chunk_of-Covers f offset limit h positive =
    let n : ℕ = min limit (length f.contents - offset) in
    let rest : Bytes = drop offset f.contents in
    let size : length rest + offset ≡ length f.contents = length-drop offset f.contents h in
    let taken : length (take n rest) ≡ n = length-take n rest (omega (arith, size)) in
    record {
      inside = h;
      next = rw (drop-drop offset (length (take n rest)) f.contents) (take-rest n rest);
      advances = refl;
      bounded = omega (arith, taken);
      ends = ground arith;
      moves = ground (arith, taken, size);
    }

read_metadata-execution :
    (d : Directory) (m : Metadata) (id : Bytes)
    → read_metadata d ≡ ok m
    → not (beq m.execution id) ≡ false
    → d.metadata.execution ≡ id
unfolding read_metadata
read_metadata-execution d m id h own = ground (arith, h, own, beq_iff m.execution id)

-- A read gives bytes of the execution's own log file, from the offset on and no more than were asked
-- for, and the next offset goes on where they end, so reads from one offset to the next give the
-- whole file once. The end is reported exactly at the end of the file, and a read that does not
-- reach it gives at least one byte.
pub read-Covers :
    (directory : Bytes → Bytes) (s : Store) (id stream : Bytes) (offset limit : ℕ)
    (chunk : LogChunk)
    → read directory s id stream offset limit ≡ ok chunk
    → (d : Directory) × ((f : LogFile) × ((get (directory id) s.directories ≡ some d)
          × (d.metadata.execution ≡ id)
          × (stream_file d stream ≡ some f)
          × (chunk.truncated ≡ f.truncated)
          × Covers f offset limit chunk))
unfolding read read_metadata
read-Covers directory s id stream offset limit chunk h =
    let P : LogChunk → Type 0 = λ (x : LogChunk).
      (d : Directory) × ((f : LogFile) × ((get (directory id) s.directories ≡ some d)
          × (d.metadata.execution ≡ id)
          × (stream_file d stream ≡ some f)
          × (x.truncated ≡ f.truncated)
          × Covers f offset limit x)) in
    subst (Ensures P) h (
      stop_if_rule P (not _ || limit == 0 || ltb 1048576 limit) _ _ (λ asked.
        present_rule P (get (directory id) s.directories) _ _ (λ d found.
          bind_rule P (read_metadata d) _ (λ m valid.
            stop_if_rule P (not (beq m.execution id)) _ _ (λ own.
              present_rule P (stream_file d stream) _ _ (λ f held.
                stop_if_rule P (ltb (length f.contents) offset) _ _ (λ inside. (
                  d,
                  (
                    f,
                    (
                      found,
                      read_metadata-execution d m id valid own,
                      held,
                      refl,
                      chunk_of-Covers f offset limit (ground (arith, inside))
                          (ground (arith, asked)),
                    ),
                  ),
                ))))))))
