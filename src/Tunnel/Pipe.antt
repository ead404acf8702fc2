-- ===== src/Tunnel/Pipe.antt =====
-- stream.go: what one end reads is what the other end wrote.
use r1s.Base.{
  ℕ, zero, suc, ◌≡◌, ◌⊎◌, inl, inr, refl, sym, ap, ◌∙◌, Bool, true, false, List, [], ◌∷◌, ◌++◌,
  take, drop, arith, if◌then◌else◌, ◌==◌, Bool-cases,
}
use mathlib.Core.List.{append_assoc, append-nil}
use r1s.Tunnel.Framing.{Packet, Frame, max_packet_payload}
use r1s.Tunnel.Stream.{send_data, read, close_read, close_write, close_with_reason, ingest, end}
use r1s.Tunnel.Link.{
  Side, Link, Action, Turn, near_acts, far_acts, start, run, act, swap, take_in, after_send,
  after_read, send, receive, deliver, stop_reading, stop_writing, hang_up,
}
use r1s.Tunnel.Flow.{Flows, IsFlowing, data_size, act-IsFlowing, swap-IsFlowing, start-IsFlowing}

-- The stream bytes on a wire.
unfoldable pub data_in : List Frame → Packet
data_in [] = []
data_in (f ∷ fs) = (if f.typ == 1 then f.payload else []) ++ data_in fs

-- What was written is what was read and a rest. The rest is the inbox and what is on the way, unless
-- the reader stopped reading, or closed and lets go of what is on the way.
pub record Kept (written got inbox way : Packet) (read_done closed : Bool) : Type 0 where
  pub rest : Packet
  pub split : written ≡ got ++ rest
  pub held :
      (read_done ≡ true)
      ⊎ ((more : Packet) × ((rest ≡ inbox ++ more) × ((closed ≡ true) ⊎ (more ≡ way))))

pub data_in-append : (xs ys : List Frame) → data_in (xs ++ ys) ≡ data_in xs ++ data_in ys
unfolding data_in
data_in-append [] ys = refl
data_in-append (x ∷ xs) ys =
    rw (data_in-append xs ys) (sym (append_assoc _ (data_in xs) (data_in ys)))

pub take-drop : (n : ℕ) (xs : Packet) → take n xs ++ drop n xs ≡ xs
take-drop zero xs = refl
take-drop (suc n) [] = refl
take-drop (suc n) (x ∷ xs) = ap (◌∷◌ x) (take-drop n xs)

module _ {w g i d : Packet} {rd : Bool} where
  Kept-send : {c : Bool} (p : Packet) → Kept w g i d rd c → Kept (w ++ p) g i (d ++ p) rd c
  Kept-send p k = record {
    rest = k.rest ++ p;
    split = rw (k.split) (append_assoc g k.rest p);
    held = elim k.held [
      | inl e ↦ inl e
      | inr (more, (all, e)) ↦ inr (
        more ++ p,
        (rw all (append_assoc i more p), elim e [ inl shut ↦ inl shut | inr same ↦ inr (rw same) ]),
      )
    ];
  }

  Kept-close : {c : Bool} (d' : Packet) → Kept w g i d rd c → Kept w g i d' rd true
  Kept-close d' k = record {
    rest = k.rest;
    split = k.split;
    held = elim k.held [ inl e ↦ inl e | inr (more, (all, e)) ↦ inr (more, (all, inl refl)) ];
  }

  Kept-ignore : {c : Bool} → Kept w g i d rd c → Kept w g [] d true c
  Kept-ignore k = record { rest = k.rest; split = k.split; held = inl refl }

  Kept-read :
      {c : Bool} (n : ℕ) → Kept w g i d rd c → rd ≡ false → Kept w (g ++ take n i) (drop n i) d rd c
  Kept-read n k reading = elim k.held [
    | inl e ↦ cc
    | inr (more, (all, e)) ↦ record {
      rest = drop n i ++ more;
      split =
          k.split
          ∙ ap (◌++◌ g) (
              all
              ∙ ap (λ x. x ++ more) (sym (take-drop n i))
              ∙ append_assoc (take n i) (drop n i) more)
          ∙ sym (append_assoc g (take n i) (drop n i ++ more));
      held = inr (more, (refl, e));
    }
  ]

Kept-take :
    {w g i d : Packet} {rd : Bool} (p : Packet)
    → Kept w g i (p ++ d) rd false
    → Kept w g (i ++ p) d rd false
Kept-take {w} {g} {i} {d} p k = record {
  rest = k.rest;
  split = k.split;
  held = elim k.held [
    | inl e ↦ inl e
    | inr (more, (all, inl e)) ↦ cc
    | inr (more, (all, inr e)) ↦ inr (d, (all ∙ ap (◌++◌ i) e ∙ sym (append_assoc i p d), inr refl))
  ];
}

abbrev pub Keeps : Side → Side → Type 0
Keeps s r = Kept s.written r.got r.stream.inbox (data_in s.wire) r.stream.read_done r.stream.closed

send-Keeps : (s r : Side) (p : Packet) → Keeps s r → Keeps (after_send s p (send_data s.stream p)) r
unfolding send_data data_in
send-Keeps s r p k = grind (arith, k, Kept-send p k, data_in-append, append-nil p)

send-Keeps_back :
    (s r : Side) (p : Packet) → Keeps r s → Keeps r (after_send s p (send_data s.stream p))
unfolding send_data
send-Keeps_back s r p k = grind (arith, k)

read-Keeps : (s r : Side) (n : ℕ) → Keeps s r → Keeps (after_read s (read s.stream n)) r
unfolding read end data_in
read-Keeps s r n k = grind (arith, k, data_in-append, append-nil)

read-Keeps_back : (s r : Side) (n : ℕ) → Keeps r s → Keeps r (after_read s (read s.stream n))
unfolding read end
read-Keeps_back s r n k = grind (arith, k, Kept-read n k, Kept-close (data_in r.wire) k)

deliver-Keeps :
    (s r : Side) (f : Frame) (rest : List Frame)
    → r.wire ≡ f ∷ rest
    → Keeps s r
    → Keeps (take_in s f) (record r { wire = rest })
unfolding ingest end data_in
deliver-Keeps s r f rest e k = grind (arith, k, data_in-append, append-nil)

deliver-Keeps_back :
    (s r : Side) (f : Frame) (rest : List Frame)
    → r.wire ≡ f ∷ rest
    → Flows r s
    → Keeps r s
    → Keeps (record r { wire = rest }) (take_in s f)
unfolding ingest end data_in data_size
deliver-Keeps_back s r f rest e flow k = elim (Bool-cases s.stream.closed) [
  | inl shut ↦ rw shut (Kept-close (data_in rest) k)
  | inr live ↦ elim (Bool-cases (f.typ == 1)) [
    | inl stream ↦
        let way : data_in r.wire ≡ f.payload ++ data_in rest = rw (e, data_in, stream) in
        let taken : Keeps r s = k in
        grind (arith, Kept-take f.payload (rw (way, live) at taken), flow.covered)
    | inr other ↦
        let way : data_in r.wire ≡ data_in rest = rw (e, data_in, other) in
        grind (arith, k, flow.covered)
  ]
]

-- Both ways at once.
pub record IsPiping (l : Link) : Type 0 where
  pub flowing : IsFlowing l
  pub there : Keeps l.near l.far
  pub back : Keeps l.far l.near

swap-IsPiping : (l : Link) → IsPiping l → IsPiping (swap l)
swap-IsPiping l k = record { flowing = swap-IsFlowing l k.flowing; there = k.back; back = k.there }

deliver-IsPiping :
    (l : Link)
    → IsPiping l
    → Keeps (act deliver l).near (act deliver l).far
      × Keeps (act deliver l).far (act deliver l).near
unfolding act
deliver-IsPiping l k =
    elim l.far.wire
        as (λ w.
          l.far.wire ≡ w
          → let m : Link = (elim w [
            | [] ↦ l
            | f ∷ rest ↦ record { near = take_in l.near f; far = record l.far { wire = rest } }
          ]) in
            Keeps m.near m.far × Keeps m.far m.near) [
              | [] ↦ λ e. (k.there, k.back)
              | f ∷ rest ↦ λ e. (
                deliver-Keeps l.near l.far f rest e k.there,
                deliver-Keeps_back l.near l.far f rest e k.flowing.back k.back,
              )
            ]
      refl

act-Keeps :
    (a : Action) (l : Link)
    → IsPiping l
    → Keeps (act a l).near (act a l).far × Keeps (act a l).far (act a l).near
unfolding act data_in close_read close_write close_with_reason end
act-Keeps (send p) l k =
    let segment : Packet = take max_packet_payload p in
    (send-Keeps l.near l.far segment k.there, send-Keeps_back l.near l.far segment k.back)
act-Keeps (receive n) l k =
    (read-Keeps l.near l.far n k.there, read-Keeps_back l.near l.far n k.back)
act-Keeps deliver l k = deliver-IsPiping l k
act-Keeps stop_reading l k = (k.there, Kept-ignore k.back)
act-Keeps stop_writing l k =
    (grind (arith, k.there, data_in-append, append-nil), grind (arith, k.back))
act-Keeps (hang_up reason detail) l k = (
  grind (arith, k.there, data_in-append, append-nil),
  grind (arith, k.back, Kept-close (data_in l.far.wire) k.back),
)

act-IsPiping : (a : Action) (l : Link) → IsPiping l → IsPiping (act a l)
act-IsPiping a l k = record {
  flowing = act-IsFlowing a l k.flowing;
  there = (act-Keeps a l k).0;
  back = (act-Keeps a l k).1;
}

start-IsPiping : (id : ℕ) → IsPiping (start id)
unfolding data_in
start-IsPiping id =
    let side : Kept [] [] [] [] false false = record {
      rest = [];
      split = refl;
      held = inr ([], (refl, inr refl));
    } in
    record { flowing = start-IsFlowing id; there = side; back = side }

pub run-IsPiping : (turns : List Turn) (l : Link) → IsPiping l → IsPiping (run turns l)
unfolding run
run-IsPiping [] l k = k
run-IsPiping (near_acts a ∷ turns) l k = run-IsPiping turns (act a l) (act-IsPiping a l k)
run-IsPiping (far_acts a ∷ turns) l k =
    run-IsPiping turns (swap (act a (swap l)))
      (swap-IsPiping (act a (swap l)) (act-IsPiping a (swap l) (swap-IsPiping l k)))

-- After any turns of the two ends of a fresh stream, what one end has read is a prefix of what the
-- other end has sent: no byte is lost, repeated or out of order. While the reader has neither closed
-- nor stopped reading, the bytes it has not read are its inbox and then the data on the way.
pub run-pipe :
    (turns : List Turn) (id : ℕ)
    → let l : Link = run turns (start id) in
      (rest : Packet) × ((l.far.written ≡ l.near.got ++ rest)
        × ((l.near.stream.read_done ≡ true)
            ⊎ ((l.near.stream.closed ≡ true) ⊎ (rest ≡ l.near.stream.inbox ++ data_in l.far.wire))))
run-pipe turns id =
    let k : IsPiping (run turns (start id)) = run-IsPiping turns (start id) (start-IsPiping id) in
    (
      k.back.rest,
      (
        k.back.split,
        elim k.back.held [
          | inl done ↦ inl done
          | inr (more, (all, inl shut)) ↦ inr (inl shut)
          | inr (more, (all, inr way)) ↦
              inr (inr (all ∙ ap (◌++◌ (run turns (start id)).near.stream.inbox) way))
        ],
      ),
    )
