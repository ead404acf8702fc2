-- ===== src/Tunnel/Wakes.antt =====
-- stream.go: a Write that waits for window goes on once the peer reads.
use r1s.Base.{
  ℕ, ◌≤◌, ◌≡◌, ◌≢◌, inl, inr, refl, sym, subst, ◌∙◌, Bool, true, false, List, [], ◌∷◌, ◌++◌, All,
  length, take, drop, arith, Bool-cases, is_empty, length-take_le,
}
use mathlib.Core.List.{append-nil}
use r1s.Tunnel.Framing.{Packet, Frame, max_packet_payload}
use r1s.Tunnel.Stream.{Stream, send_data, read, ingest, end, blocked}
use r1s.Tunnel.Link.{
  Side, Link, Turn, near_acts, far_acts, start, run, act, swap, take_in, deliver, receive,
}
use r1s.Tunnel.Flow.{IsFlowing, data_size, grants_in, run-IsFlowing, start-IsFlowing, Flows}

-- The turns that only move frames and bytes on: deliveries, and reads of the far end.
abbrev pub moves_on : Turn → Bool
moves_on (near_acts deliver) = true
moves_on (far_acts deliver) = true
moves_on (far_acts (receive n)) = true
moves_on _ = false

abbrev pub MovesOn : List Turn → Type 0
MovesOn = All (λ t. moves_on t ≡ true)

MovesOn-append : (xs ys : List Turn) → MovesOn xs → MovesOn ys → MovesOn (xs ++ ys)
MovesOn-append [] ys p q = q
MovesOn-append (x ∷ xs) ys (p, ps) q = (p, MovesOn-append xs ys ps q)

run-append : (xs ys : List Turn) (l : Link) → run (xs ++ ys) l ≡ run ys (run xs l)
unfolding run
run-append [] ys l = refl
run-append (near_acts a ∷ xs) ys l = run-append xs ys (act a l)
run-append (far_acts a ∷ xs) ys l = run-append xs ys (swap (act a (swap l)))

-- A link that some such turns reach.
record Reach (l : Link) (P : Link → Type 0) : Type 0 where
  turns : List Turn
  moving : MovesOn turns
  goal : P (run turns l)

Reach-then :
    (l : Link) {P Q : Link → Type 0} → Reach l P → ((m : Link) → P m → Reach m Q) → Reach l Q
Reach-then l {P} {Q} first next =
    let second : Reach (run first.turns l) Q = next (run first.turns l) first.goal in
    record {
      turns = first.turns ++ second.turns;
      moving = MovesOn-append first.turns second.turns first.moving second.moving;
      goal = subst Q (sym (run-append first.turns second.turns l)) second.goal;
    }

-- The near end may write and the far end reads.
record IsLive (l : Link) : Type 0 where
  flowing : IsFlowing l
  near_open : l.near.stream.closed ≡ false
  far_open : l.far.stream.closed ≡ false
  reading : l.far.stream.read_done ≡ false

-- Nothing is on the way to the far end.
record Delivered (l : Link) : Type 0 where
  live : IsLive l
  arrived : l.near.wire ≡ []

-- And the far end has read all.
record Drained (l : Link) : Type 0 where
  delivered : Delivered l
  empty : l.far.stream.inbox ≡ []

-- A frame that fits the window is taken without an answer.
take_in-Flows :
    (s r : Side) (f : Frame) (rest : List Frame)
    → Flows r s
    → r.wire ≡ f ∷ rest
    → s.stream.closed ≡ false
    → ((take_in s f).stream.closed ≡ false)
      × ((take_in s f).wire ≡ s.wire)
      × ((take_in s f).stream.read_done ≡ s.stream.read_done)
unfolding ingest end data_size
take_in-Flows s r f rest k e live = grind (arith, k.covered, append-nil)

-- The far end takes in the oldest frame.
deliver_far :
    (l : Link) (f : Frame) (rest : List Frame)
    → l.near.wire ≡ f ∷ rest
    → act deliver (swap l) ≡ record { near = take_in l.far f; far = record l.near { wire = rest } }
unfolding act
deliver_far l f rest e = rw e

far_takes :
    (l : Link) (f : Frame) (rest : List Frame)
    → l.near.wire ≡ f ∷ rest
    → IsLive l
    → let m : Link = run (far_acts deliver ∷ []) l in IsLive m × (m.near.wire ≡ rest)
unfolding run
far_takes l f rest e k =
    let quiet = take_in-Flows l.far l.near f rest k.flowing.there e k.far_open in
    let same = deliver_far l f rest e in
    (
      record {
        flowing = run-IsFlowing (far_acts deliver ∷ []) l k.flowing;
        near_open = rw same k.near_open;
        far_open = rw same quiet.0;
        reading = rw same (quiet.2 ∙ k.reading);
      },
      rw same,
    )

deliver_all : (wire : List Frame) (l : Link) → l.near.wire ≡ wire → IsLive l → Reach l Delivered
unfolding run
deliver_all [] l e k = record { turns = []; moving = tt; goal = record { live = k; arrived = e } }
deliver_all (f ∷ wire) l e k =
    Reach-then l {P = λ m. IsLive m × (m.near.wire ≡ wire)}
      (record { turns = far_acts deliver ∷ []; moving = (refl, tt); goal = far_takes l f wire e k })
      (λ m p. deliver_all wire m p.1 p.0)

drop_all : (xs : Packet) → drop (length xs) xs ≡ []
drop_all [] = refl
drop_all (x ∷ xs) = drop_all xs

-- A read of all that is there.
far_reads :
    (l : Link)
    → IsLive l
    → is_empty l.far.stream.inbox ≡ false
    → let m : Link = act (receive (length l.far.stream.inbox)) (swap l) in
      (m.near.stream.inbox ≡ [])
      × (m.near.stream.closed ≡ false)
      × (m.near.stream.read_done ≡ false)
      × (m.far ≡ l.near)
unfolding act read end
far_reads l k full = grind (arith, k.far_open, k.reading, drop_all)

read_all : (l : Link) → Delivered l → Reach l Drained
unfolding run
read_all l k = elim (Bool-cases (is_empty l.far.stream.inbox)) [
  | inl none_left ↦ record {
    turns = [];
    moving = tt;
    goal = record { delivered = k; empty = ground (arith, none_left) };
  }
  | inr some_left ↦
      let n : ℕ = length l.far.stream.inbox in
      let after = far_reads l k.live some_left in
      record {
        turns = far_acts (receive n) ∷ [];
        moving = (refl, tt);
        goal = record {
          delivered = record {
            live = record {
              flowing = run-IsFlowing (far_acts (receive n) ∷ []) l k.live.flowing;
              near_open = rw after.3 k.live.near_open;
              far_open = after.1;
              reading = after.2;
            };
            arrived = rw after.3 k.arrived;
          };
          empty = after.0;
        };
      }
]

deliver_near :
    (l : Link) (f : Frame) (rest : List Frame)
    → l.far.wire ≡ f ∷ rest
    → act deliver l ≡ record { near = take_in l.near f; far = record l.far { wire = rest } }
unfolding act
deliver_near l f rest e = rw e

near_takes :
    (l : Link) (f : Frame) (rest : List Frame)
    → l.far.wire ≡ f ∷ rest
    → Drained l
    → let m : Link = run (near_acts deliver ∷ []) l in Drained m × (m.far.wire ≡ rest)
unfolding run
near_takes l f rest e k =
    let live = k.delivered.live in
    let quiet = take_in-Flows l.near l.far f rest live.flowing.back e live.near_open in
    let same = deliver_near l f rest e in
    (
      record {
        delivered = record {
          live = record {
            flowing = run-IsFlowing (near_acts deliver ∷ []) l live.flowing;
            near_open = rw same quiet.0;
            far_open = rw same live.far_open;
            reading = rw same live.reading;
          };
          arrived = rw same (quiet.1 ∙ k.delivered.arrived);
        };
        empty = rw same k.empty;
      },
      rw same,
    )

abbrev Returned : Link → Type 0
Returned l = Drained l × (l.far.wire ≡ [])

grant_all : (wire : List Frame) (l : Link) → l.far.wire ≡ wire → Drained l → Reach l Returned
unfolding run
grant_all [] l e k = record { turns = []; moving = tt; goal = (k, e) }
grant_all (f ∷ wire) l e k =
    Reach-then l {P = λ m. Drained m × (m.far.wire ≡ wire)}
      (record {
        turns = near_acts deliver ∷ [];
        moving = (refl, tt);
        goal = near_takes l f wire e k;
      })
      (λ m p. grant_all wire m p.1 p.0)

Returned-window : (l : Link) → Returned l → max_packet_payload ≤ l.near.stream.peer_window
unfolding data_size grants_in
Returned-window l (k, e) =
    let live = k.delivered.live in
    grind (
      arith, live.flowing.there.tight, live.flowing.there.credited, live.flowing.there.batched,
      live.near_open, live.far_open, live.reading, k.empty, k.delivered.arrived,
    )

send-window :
    (n : ℕ) (s : Stream) (p : Packet) → n ≤ s.peer_window → send_data s (take n p) ≢ blocked
unfolding send_data
send-window n s p h = ground (arith, length-take_le n p)

-- However the two ends of a fresh stream came to where they are: if neither has closed and the far
-- end has not stopped reading, then deliveries and reads of the far end alone lead to a state in
-- which the near end is still open and the next segment of a Write does not wait for window.
pub run-wakes :
    (turns : List Turn) (id : ℕ) (p : Packet)
    → (run turns (start id)).near.stream.closed ≡ false
    → (run turns (start id)).far.stream.closed ≡ false
    → (run turns (start id)).far.stream.read_done ≡ false
    → (more : List Turn) × (MovesOn more
        × ((run more (run turns (start id))).near.stream.closed ≡ false)
        × (send_data (run more (run turns (start id))).near.stream (take max_packet_payload p)
            ≢ blocked))
run-wakes turns id p near_open far_open reading =
    let l : Link = run turns (start id) in
    let live : IsLive l = record {
      flowing = run-IsFlowing turns (start id) (start-IsFlowing id);
      near_open = near_open;
      far_open = far_open;
      reading = reading;
    } in
    let delivered : Reach l Delivered = deliver_all l.near.wire l refl live in
    let drained : Reach l Drained = Reach-then l delivered read_all in
    let returned : Reach l Returned = Reach-then l drained (λ m k. grant_all m.far.wire m refl k) in
    let goal : Returned (run returned.turns l) = returned.goal in
    (
      returned.turns,
      (
        returned.moving,
        goal.0.delivered.live.near_open,
        send-window max_packet_payload _ p (Returned-window (run returned.turns l) goal),
      ),
    )
