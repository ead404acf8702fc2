-- ===== src/Tunnel/Segments.antt =====
-- stream.go: what Write has sent when it returns or waits.
use r1s.Base.{
  ℕ, zero, suc, ◌+◌, ◌≤◌, ◌<◌, ◌≡◌, ◌⊎◌, inl, inr, refl, ap, ◌∙◌, false, [], ◌∷◌, ◌++◌, All, length,
  take, drop, arith, is_empty, length-take_le, length-append,
}
use mathlib.Core.List.{append_assoc}
use r1s.Tunnel.Framing.{Packet, SessionError}
use r1s.Tunnel.Stream.{
  Stream, Sent, Wrote, frame, frame_type_data, send_data, sent, blocked, write_closed, peer_ended,
  Ending, all_written, failed, Writing, waiting, stop, write_loop, write, after_frames,
}
use r1s.Tunnel.Pipe.{data_in, take-drop}
use r1s.Tunnel.Flow.{length-take-drop}

-- Why a Write ended with the bytes `left` unsent.
pub data Stopped (max_seg : ℕ) (s : Stream) : Packet → Ending → Type 0 where
  finished : Stopped max_seg s [] all_written
  stuck :
      (left : Packet)
      → send_data s (take max_seg left) ≡ blocked
      → Stopped max_seg s left (waiting left)
  refused :
      (left : Packet) (e : Sent)
      → send_data s (take max_seg left) ≡ e
      → Stopped max_seg s left (failed e)

pub record Segmented (max_seg : ℕ) (p : Packet) (from : ℕ) (w : Writing) : Type 0 where
  pub left : Packet
  pub whole : data_in w.frames ++ left ≡ p
  pub counted : w.total ≡ from + length (data_in w.frames)
  pub small : All (λ f. length f.payload ≤ max_seg) w.frames
  pub stopped : Stopped max_seg w.stream left w.ending

sent_frame :
    (s : Stream) (p : Packet) (w : Wrote)
    → send_data s p ≡ sent w
    → w.frames ≡ frame s frame_type_data p ∷ []
unfolding send_data
sent_frame s p w h = grind arith

drop_shorter : (n : ℕ) (xs : Packet) → 1 ≤ n → is_empty xs ≡ false → length (drop n xs) < length xs
drop_shorter zero xs h e = ground arith
drop_shorter (suc n) [] h e = ground arith
drop_shorter (suc n) (x ∷ xs) h e = omega (arith, length-take-drop n xs)

Sent-cases :
    (r : Sent)
    → ((r ≡ write_closed) ⊎ (r ≡ blocked))
      ⊎ (((err : SessionError) × (r ≡ peer_ended err)) ⊎ ((w : Wrote) × (r ≡ sent w)))
Sent-cases write_closed = inl (inl refl)
Sent-cases blocked = inl (inr refl)
Sent-cases (peer_ended err) = inr (inl (err, refl))
Sent-cases (sent w) = inr (inr (w, refl))

-- One segment is sent and the rest follows.
Segmented-next :
    (max_seg : ℕ) (s : Stream) (p : Packet) (from : ℕ) (w : Wrote) (rest : Writing)
    → send_data s (take max_seg p) ≡ sent w
    → Segmented max_seg (drop max_seg p) (from + length (take max_seg p)) rest
    → Segmented max_seg p from (after_frames w.frames rest)
unfolding data_in
Segmented-next max_seg s p from w rest h k = rw (sent_frame s (take max_seg p) w h) (record {
  left = k.left;
  whole =
      append_assoc (take max_seg p) (data_in rest.frames) k.left
      ∙ ap (◌++◌ (take max_seg p)) k.whole
      ∙ take-drop max_seg p;
  counted = omega (arith, k.counted, length-append (take max_seg p) (data_in rest.frames));
  small = (length-take_le max_seg p, k.small);
  stopped = k.stopped;
})

stop-Segmented :
    (max_seg : ℕ) (s : Stream) (p : Packet) (from : ℕ) {e : Ending}
    → Stopped max_seg s p e
    → Segmented max_seg p from (stop s from e)
unfolding data_in
stop-Segmented max_seg s p from why = record {
  left = p;
  whole = refl;
  counted = omega arith;
  small = tt;
  stopped = why;
}

write_loop-Segmented :
    (fuel max_seg : ℕ) (s : Stream) (p : Packet) (from : ℕ)
    → 1 ≤ max_seg
    → length p ≤ fuel
    → Segmented max_seg p from (write_loop fuel max_seg s p from)
unfolding write_loop
write_loop-Segmented zero max_seg s [] from h enough = stop-Segmented max_seg s [] from finished
write_loop-Segmented zero max_seg s (x ∷ p) from h enough = ground arith
write_loop-Segmented (suc fuel) max_seg s [] from h enough =
    stop-Segmented max_seg s [] from finished
write_loop-Segmented (suc fuel) max_seg s (x ∷ p) from h enough =
    let q : Packet = x ∷ p in
    elim (Sent-cases (send_data s (take max_seg q))) [
      | inl (inl e) ↦ rw e (stop-Segmented max_seg s q from (refused q write_closed e))
      | inl (inr e) ↦ rw e (stop-Segmented max_seg s q from (stuck q e))
      | inr (inl (err, e)) ↦ rw e (stop-Segmented max_seg s q from (refused q (peer_ended err) e))
      | inr (inr (w, e)) ↦ rw e (
          Segmented-next max_seg s q from w _ e (
            write_loop-Segmented fuel max_seg w.stream (drop max_seg q)
              (from + length (take max_seg q)) h (omega (arith, drop_shorter max_seg q h refl))))
    ]

-- With segments of at least one byte, Write always comes to an end of its loop. It has then sent
-- data frames of at most one segment each whose bytes are, in order, the first `total` bytes of what
-- it was given. It stops only with every byte sent, when the window has no room for the next
-- segment, or when the stream refuses that segment.
pub write-Segmented :
    (max_seg : ℕ) (s : Stream) (p : Packet)
    → 1 ≤ max_seg
    → Segmented max_seg p 0 (write max_seg s p)
unfolding write
write-Segmented max_seg s p h = write_loop-Segmented (length p) max_seg s p 0 h (omega arith)
