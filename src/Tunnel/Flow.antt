-- ===== src/Tunnel/Flow.antt =====
-- stream.go: the window accounting of the two ends.
use r1s.Base.{
  ℕ, zero, suc, ◌+◌, ◌≤◌, ◌<◌, ◌≡◌, ◌⊎◌, refl, true, ◌||◌, List, [], ◌∷◌, ◌++◌, length, take, drop,
  length-append, arith, if◌then◌else◌, leb, ◌==◌,
}
use r1s.Tunnel.Framing.{
  Packet, Frame, Reason, max_packet_payload, parse_window_payload, stream_window_payload,
}
use r1s.Tunnel.Stream.{
  send_data, read, close_read, close_write, close_with_reason, ingest, end, stream_window_size,
}
use r1s.Tunnel.Link.{
  Side, Link, Action, Turn, near_acts, far_acts, start, run, act, swap, take_in, after_send,
  after_read, emit, send, receive, deliver, stop_reading, stop_writing, hang_up,
}

-- The window that the updates on a wire give back.
unfoldable pub grants_in : List Frame → ℕ
grants_in [] = 0
grants_in (f ∷ fs) =
    (if f.typ == 7
      then if leb 4 (length f.payload) then parse_window_payload f.payload else 0
      else 0)
    + grants_in fs

-- How many stream bytes are on a wire.
unfoldable pub data_size : List Frame → ℕ
data_size [] = 0
data_size (f ∷ fs) = (if f.typ == 1 then length f.payload else 0) + data_size fs

-- The bytes that the sender may still bring to the receiver.
abbrev pub claims : Side → Side → ℕ
claims s r = s.stream.peer_window + data_size s.wire + grants_in r.wire + r.stream.grant_pending

pub record Flows (s r : Side) : Type 0 where
  pub covered : claims s r ≤ r.stream.recv_avail
  pub room : r.stream.recv_avail + length r.stream.inbox ≤ 65536
  pub batched : r.stream.grant_pending < 16384
  pub tight : (s.stream.closed || r.stream.closed ≡ true) ⊎ (claims s r ≡ r.stream.recv_avail)
  pub credited : (r.stream.read_done ≡ true) ⊎ (r.stream.recv_avail + length r.stream.inbox ≡ 65536)

data_size-append : (xs ys : List Frame) → data_size (xs ++ ys) ≡ data_size xs + data_size ys
unfolding data_size
data_size-append [] ys = omega arith
data_size-append (x ∷ xs) ys = omega (arith, data_size-append xs ys)

grants_in-append : (xs ys : List Frame) → grants_in (xs ++ ys) ≡ grants_in xs + grants_in ys
unfolding grants_in
grants_in-append [] ys = omega arith
grants_in-append (x ∷ xs) ys = omega (arith, grants_in-append xs ys)

pub length-take-drop : (n : ℕ) (xs : Packet) → length (take n xs) + length (drop n xs) ≡ length xs
length-take-drop zero xs = omega arith
length-take-drop (suc n) [] = omega arith
length-take-drop (suc n) (x ∷ xs) = omega (arith, length-take-drop n xs)

read_window : (n : ℕ) → n < 4294967296 → parse_window_payload (stream_window_payload n) ≡ n
unfolding parse_window_payload stream_window_payload
read_window n h = omega arith

length-window : (n : ℕ) → length (stream_window_payload n) ≡ 4
unfolding stream_window_payload
length-window n = refl

-- Each action of `s`: what it sends to `r`, and what it hears from `r`.
send-Flows : (s r : Side) (p : Packet) → Flows s r → Flows (after_send s p (send_data s.stream p)) r
unfolding send_data data_size grants_in
send-Flows s r p k = grind (arith, k, data_size-append, grants_in-append)

send-Flows_back :
    (s r : Side) (p : Packet) → Flows r s → Flows r (after_send s p (send_data s.stream p))
unfolding send_data data_size grants_in
send-Flows_back s r p k = grind (arith, k, data_size-append, grants_in-append)

read-Flows : (s r : Side) (n : ℕ) → Flows s r → Flows (after_read s (read s.stream n)) r
unfolding read end data_size grants_in
read-Flows s r p k = grind (arith, k, data_size-append, grants_in-append)

read-Flows_back : (s r : Side) (n : ℕ) → Flows r s → Flows r (after_read s (read s.stream n))
unfolding read end data_size grants_in
read-Flows_back s r n k = grind (
  arith,
  k,
  data_size-append,
  grants_in-append,
  length-take-drop n s.stream.inbox,
  read_window (s.stream.grant_pending + length (take n s.stream.inbox)),
  length-window (s.stream.grant_pending + length (take n s.stream.inbox)),
)

deliver-Flows :
    (s r : Side) (f : Frame) (rest : List Frame)
    → r.wire ≡ f ∷ rest
    → Flows s r
    → Flows (take_in s f) (record r { wire = rest })
unfolding ingest end data_size grants_in
deliver-Flows s r f rest e k = grind (arith, k, data_size-append, grants_in-append)

deliver-Flows_back :
    (s r : Side) (f : Frame) (rest : List Frame)
    → r.wire ≡ f ∷ rest
    → Flows r s
    → Flows (record r { wire = rest }) (take_in s f)
unfolding ingest end data_size grants_in
deliver-Flows_back s r f rest e k =
    grind (arith, k, data_size-append, grants_in-append, length-append s.stream.inbox f.payload)

stop_reading-Flows : (s r : Side) → Flows s r → Flows (record s { stream = close_read s.stream }) r
unfolding close_read
stop_reading-Flows s r k = grind (arith, k)

stop_reading-Flows_back :
    (s r : Side) → Flows r s → Flows r (record s { stream = close_read s.stream })
unfolding close_read
stop_reading-Flows_back s r k = grind (arith, k)

stop_writing-Flows : (s r : Side) → Flows s r → Flows (emit s (close_write s.stream)) r
unfolding close_write data_size grants_in
stop_writing-Flows s r k = grind (arith, k, data_size-append, grants_in-append)

stop_writing-Flows_back : (s r : Side) → Flows r s → Flows r (emit s (close_write s.stream))
unfolding close_write data_size grants_in
stop_writing-Flows_back s r k = grind (arith, k, data_size-append, grants_in-append)

hang_up-Flows :
    (s r : Side) (reason : Reason) (detail : Packet)
    → Flows s r
    → Flows (emit s (close_with_reason s.stream reason detail)) r
unfolding close_with_reason end data_size grants_in
hang_up-Flows s r reason detail k = grind (arith, k, data_size-append, grants_in-append)

hang_up-Flows_back :
    (s r : Side) (reason : Reason) (detail : Packet)
    → Flows r s
    → Flows r (emit s (close_with_reason s.stream reason detail))
unfolding close_with_reason end data_size grants_in
hang_up-Flows_back s r reason detail k = grind (arith, k, data_size-append, grants_in-append)

-- Both ways at once.
pub record IsFlowing (l : Link) : Type 0 where
  pub there : Flows l.near l.far
  pub back : Flows l.far l.near

pub swap-IsFlowing : (l : Link) → IsFlowing l → IsFlowing (swap l)
swap-IsFlowing l k = record { there = k.back; back = k.there }

pub act-IsFlowing : (a : Action) (l : Link) → IsFlowing l → IsFlowing (act a l)
unfolding act
act-IsFlowing (send p) l k =
    let segment : Packet = take max_packet_payload p in
    record {
      there = send-Flows l.near l.far segment k.there;
      back = send-Flows_back l.near l.far segment k.back;
    }
act-IsFlowing (receive n) l k = record {
  there = read-Flows l.near l.far n k.there;
  back = read-Flows_back l.near l.far n k.back;
}
act-IsFlowing deliver l k =
    elim l.far.wire
        as (λ w.
          l.far.wire ≡ w
          → IsFlowing (elim w [
            | [] ↦ l
            | f ∷ rest ↦ record { near = take_in l.near f; far = record l.far { wire = rest } }
          ])) [
            | [] ↦ λ e. k
            | f ∷ rest ↦ λ e. record {
              there = deliver-Flows l.near l.far f rest e k.there;
              back = deliver-Flows_back l.near l.far f rest e k.back;
            }
          ]
      refl
act-IsFlowing stop_reading l k = record {
  there = stop_reading-Flows l.near l.far k.there;
  back = stop_reading-Flows_back l.near l.far k.back;
}
act-IsFlowing stop_writing l k = record {
  there = stop_writing-Flows l.near l.far k.there;
  back = stop_writing-Flows_back l.near l.far k.back;
}
act-IsFlowing (hang_up reason detail) l k = record {
  there = hang_up-Flows l.near l.far reason detail k.there;
  back = hang_up-Flows_back l.near l.far reason detail k.back;
}

pub start-IsFlowing : (id : ℕ) → IsFlowing (start id)
unfolding data_size grants_in
start-IsFlowing id = record { there = grind arith; back = grind arith }

pub run-IsFlowing : (turns : List Turn) (l : Link) → IsFlowing l → IsFlowing (run turns l)
unfolding run
run-IsFlowing [] l k = k
run-IsFlowing (near_acts a ∷ turns) l k = run-IsFlowing turns (act a l) (act-IsFlowing a l k)
run-IsFlowing (far_acts a ∷ turns) l k =
    run-IsFlowing turns (swap (act a (swap l)))
      (swap-IsFlowing (act a (swap l)) (act-IsFlowing a (swap l) (swap-IsFlowing l k)))

-- After any turns of the two ends of a fresh stream, the oldest frame on the way to an end never
-- makes that end tear the stream down: no flow-control violation happens. The stream bytes on the
-- way and in the inbox together are never more than one window.
pub run-window :
    (turns : List Turn) (id : ℕ) (f : Frame) (rest : List Frame)
    → (run turns (start id)).far.wire ≡ f ∷ rest
    → ((ingest (run turns (start id)).near.stream f).stream.closed
        ≡ (run turns (start id)).near.stream.closed)
      × (data_size (f ∷ rest) + length (run turns (start id)).near.stream.inbox
          ≤ stream_window_size)
unfolding ingest end data_size
run-window turns id f rest e =
    let k : IsFlowing (run turns (start id)) =
      run-IsFlowing turns (start id) (start-IsFlowing id) in
    grind (arith, k.back.covered, k.back.room)
