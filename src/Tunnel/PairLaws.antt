-- ===== src/Tunnel/PairLaws.antt =====
-- pair.go and pair_streams.go: what reaches the edge, what a frame leaves alone, and the teardown.
use r1s.Base.{
  ℕ, ◌<◌, ◌≡◌, ◌≢◌, refl, Bool, true, false, none, some, List, [], ◌∷◌, ◌++◌, arith, length, map,
  Assoc, IsMap, get, put, delete, beq, get-put, get-delete, ltb, ◌==◌, is_none, not, option_rule,
  if_rule, ltb→lt, ◌||◌,
}
use r1s.Tunnel.Contract.{Target}
use r1s.Tunnel.Registry.{Registry, Session, resolve_target, find_target, is_closed}
use r1s.Tunnel.Framing.{
  Packet, Frame, SessionError, Parsed, complete, incomplete, unknown_type, oversized, parse_frame,
  decode_stream_open,
}
use r1s.Tunnel.Stream
use r1s.Tunnel.Stream.{Stream, end}
use r1s.Tunnel.Pair

-- How the queue to the edge may grow: by one stream, whose port the pair's live session lists, and
-- only below the cap.
pub data Grows (r : Registry) (p : Pair.Pair) : List Pair.IncomingStream → Type 0 where
  same : Grows r p p.incoming
  one :
      (session : Session) (port : ℕ) (i : Pair.IncomingStream)
      → p.session ≡ some session
      → is_closed session.id r.closed ≡ false
      → find_target port session.targets ≡ some i.target
      → length p.incoming < 64
      → Grows r p (p.incoming ++ (i ∷ []))

resolve_target-eq-some :
    (r : Registry) (s : Session) (port : ℕ) (t : Target)
    → resolve_target r s port ≡ some t
    → (is_closed s.id r.closed ≡ false) × (find_target port s.targets ≡ some t)
unfolding resolve_target
resolve_target-eq-some r s port t h = ground (arith)

open_allocator_stream-Grows :
    (r : Registry) (p : Pair.Pair) (f : Frame)
    → Grows r p (Pair.open_allocator_stream r p f).pair.incoming
unfolding Pair.open_allocator_stream Pair.remove
open_allocator_stream-Grows r p f =
    let P : Pair.Result → Type 0 = λ (x : Pair.Result). Grows r p x.pair.incoming in
    if_rule P (p.closed || is_none p.session) (λ _. same)
      (λ _.
        option_rule P p.session (λ _. same)
          (λ s h.
            if_rule P (not (is_none (get (Pair.stream_key f.stream_id) p.streams))) (λ _. same)
              (λ _.
                option_rule P (resolve_target r s (decode_stream_open f.payload)) (λ _. same)
                  (λ t resolved.
                    if_rule P (ltb (length p.incoming) Pair.max_incoming_streams)
                      (λ room.
                        one s (decode_stream_open f.payload) _ h
                          (resolve_target-eq-some r s (decode_stream_open f.payload) t resolved).0
                          (resolve_target-eq-some r s (decode_stream_open f.payload) t resolved).1
                          (ltb→lt (length p.incoming) 64 room))
                      (λ _. same)))))

end_all-incoming :
    (p : Pair.Pair) (e : SessionError) (notify : Bool)
    → (Pair.terminate p e notify).pair.incoming ≡ p.incoming
unfolding Pair.terminate
end_all-incoming p e notify = ground arith

ingest_pair_frame-incoming :
    (p : Pair.Pair) (f : Frame) → (Pair.ingest_pair_frame p f).pair.incoming ≡ p.incoming
unfolding Pair.ingest_pair_frame Pair.terminate Pair.end_all
ingest_pair_frame-incoming p f = ground arith

route-Grows :
    (r : Registry) (p : Pair.Pair) (f : Frame) → Grows r p (Pair.route r p f).pair.incoming
unfolding Pair.route
route-Grows r p f =
    let P : Pair.Result → Type 0 = λ (x : Pair.Result). Grows r p x.pair.incoming in
    if_rule P (f.stream_id == Pair.stream_id_none) (λ _. rw (ingest_pair_frame-incoming p f) same)
      (λ _.
        if_rule P (f.typ == Stream.frame_type_stream_open) (λ _. open_allocator_stream-Grows r p f)
          (λ _.
            option_rule P (get (Pair.stream_key f.stream_id) p.streams) (λ _. same) (λ s _. same)))

take_parsed_rule :
    (P : Pair.Result → Type 0) (r : Registry) (p : Pair.Pair) (packet : Packet) (x : Parsed)
    → ((e : SessionError) → P (Pair.end_all p e))
    → ((f : Frame) → P (Pair.route r p f))
    → P (Pair.take_parsed r p packet x)
unfolding Pair.take_parsed
take_parsed_rule P r p packet incomplete ends routes = ends _
take_parsed_rule P r p packet unknown_type ends routes = ends _
take_parsed_rule P r p packet oversized ends routes = ends _
take_parsed_rule P r p packet (complete f consumed) ends routes = routes f

-- Whatever packet comes in, the queue of streams for the edge stays as it is or grows by one stream,
-- and grows only while the pair has a session that is not done, by a target of that session's own
-- list, and below the cap of 64.
pub ingest-Grows :
    (r : Registry) (p : Pair.Pair) (packet : Packet)
    → Grows r p (Pair.ingest r p packet).pair.incoming
unfolding Pair.ingest Pair.end_all
ingest-Grows r p packet =
    take_parsed_rule (λ (x : Pair.Result). Grows r p x.pair.incoming) r p packet
      (parse_frame packet) (λ e. rw (end_all-incoming p e true) same) (λ f. route-Grows r p f)

key-apart : (i j : ℕ) → j ≢ i → beq (Pair.stream_key i) (Pair.stream_key j) ≡ false
unfolding beq
key-apart i j h = ground (arith, h)

other-put :
    (i j : ℕ) (s : Stream) (m : Assoc Stream)
    → j ≢ i
    → get (Pair.stream_key j) (put (Pair.stream_key i) s m) ≡ get (Pair.stream_key j) m
other-put i j s m h = rw (get-put (Pair.stream_key i) (Pair.stream_key j) s m, key-apart i j h) refl

other-delete :
    (i j : ℕ) (m : Assoc Stream)
    → IsMap m
    → j ≢ i
    → get (Pair.stream_key j) (delete (Pair.stream_key i) m) ≡ get (Pair.stream_key j) m
other-delete i j m k h =
    rw (get-delete (Pair.stream_key i) (Pair.stream_key j) m k, key-apart i j h) refl

-- A frame for one stream leaves every other stream as it is, and the pair's session, teardown and
-- handshake too.
pub route-other :
    (r : Registry) (p : Pair.Pair) (f : Frame) (id : ℕ)
    → IsMap p.streams
    → f.stream_id ≢ 0
    → id ≢ f.stream_id
    → (get (Pair.stream_key id) (Pair.route r p f).pair.streams
        ≡ get (Pair.stream_key id) p.streams)
      × ((Pair.route r p f).pair.closed ≡ p.closed)
      × ((Pair.route r p f).pair.session ≡ p.session)
      × ((Pair.route r p f).pair.raw ≡ p.raw)
unfolding Pair.route Pair.open_allocator_stream Pair.remove
route-other r p f id m here other =
    let k = Pair.stream_key f.stream_id in
    let stored = λ (s : Stream). other-put f.stream_id id s p.streams other in
    let gone = other-delete f.stream_id id p.streams m other in
    let P : Pair.Result → Type 0 = λ (x : Pair.Result).
      (get (Pair.stream_key id) x.pair.streams ≡ get (Pair.stream_key id) p.streams)
      × (x.pair.closed ≡ p.closed)
      × (x.pair.session ≡ p.session)
      × (x.pair.raw ≡ p.raw) in
    let unchanged : P (Pair.silent p) = (refl, refl, refl, refl) in
    if_rule P (f.stream_id == Pair.stream_id_none) (λ zero_id. ground (arith, here, zero_id))
      (λ _.
        if_rule P (f.typ == Stream.frame_type_stream_open)
          (λ _.
            if_rule P (p.closed || is_none p.session) (λ _. unchanged)
              (λ _.
                option_rule P p.session (λ _. unchanged)
                  (λ s h.
                    if_rule P (not (is_none (get k p.streams))) (λ _. unchanged)
                      (λ _.
                        option_rule P (resolve_target r s (decode_stream_open f.payload))
                          (λ _. (gone, refl, refl, refl))
                          (λ t _.
                            if_rule P (ltb (length p.incoming) Pair.max_incoming_streams)
                              (λ _. (stored (Stream.new_stream f.stream_id), refl, refl, refl))
                              (λ _. (gone, refl, refl, refl)))))))
          (λ _.
            option_rule P (get k p.streams) (λ _. unchanged)
              (λ s _.
                if_rule
                  (λ (m : Assoc Stream).
                    P (record { pair = record p { streams = m }; frames = []; ended = [] }))
                  (Stream.ingest s f).stream.closed (λ _. (gone, refl, refl, refl))
                  (λ _. (stored (Stream.ingest s f).stream, refl, refl, refl)))))

terminate-closed :
    (p : Pair.Pair) (e : SessionError) (notify : Bool)
    → (Pair.terminate p e notify).pair.closed ≡ true
unfolding Pair.terminate
terminate-closed p e notify = ground arith

terminate-silent :
    (p : Pair.Pair) (e : SessionError) (notify : Bool)
    → p.closed ≡ true
    → Pair.terminate p e notify ≡ Pair.silent p
unfolding Pair.terminate
terminate-silent p e notify h = rw h

-- The streams of a pair, in order, each ended: closed and with the pair's error, and with its unread
-- bytes kept.
abbrev pub Ended : SessionError → Assoc Stream → List Stream → Type 0
Ended e [] [] = Unit
Ended e ((k, s) ∷ streams) (t ∷ ended) =
    (t.id ≡ s.id)
    × (t.closed ≡ true)
    × (t.peer_err ≡ some e)
    × (t.inbox ≡ s.inbox)
    × Ended e streams ended
Ended e streams ended = ⊥

map-end_stream-Ended :
    (e : SessionError) (streams : Assoc Stream)
    → Ended e streams (map (λ entry. Pair.end_stream e entry.1) streams)
unfolding end
map-end_stream-Ended e [] = tt
map-end_stream-Ended e ((k, s) ∷ streams) =
    (ground arith, ground arith, ground arith, ground arith, map-end_stream-Ended e streams)

terminate-Ended :
    (p : Pair.Pair) (e : SessionError) (notify : Bool)
    → p.closed ≡ false
    → Ended e p.streams (Pair.terminate p e notify).ended
unfolding Pair.terminate
terminate-Ended p e notify running = rw running (map-end_stream-Ended e p.streams)

terminate-streams :
    (p : Pair.Pair) (e : SessionError) (notify : Bool)
    → p.closed ≡ false
    → (Pair.terminate p e notify).pair.streams ≡ []
unfolding Pair.terminate
terminate-streams p e notify running = rw running refl

closed-quiet :
    (r : Registry) (p : Pair.Pair) (packet : Packet)
    → p.closed ≡ true
    → (Pair.ingest r p packet).frames ≡ []
unfolding Pair.ingest Pair.end_all Pair.terminate Pair.route Pair.ingest_pair_frame
    Pair.open_allocator_stream Pair.remove
closed-quiet r p packet h = ground (arith, h)

-- Tearing down an open pair ends every stream that it carried, each closed with the pair's error and
-- with the bytes that are not yet read. From then on it carries no stream, opens and hands out none,
-- cannot be authorized, a second teardown does nothing, and whatever packet comes in it writes nothing.
pub terminate_lem :
    (r : Registry) (p : Pair.Pair) (e later : SessionError) (notify : Bool) (port : ℕ)
    (session : Session) (packet : Packet)
    → p.closed ≡ false
    → let q : Pair.Pair = (Pair.terminate p e notify).pair in
      Ended e p.streams (Pair.terminate p e notify).ended
      × (q.streams ≡ [])
      × (Pair.open_stream q port ≡ none)
      × (Pair.accept_stream r q ≡ Pair.edge_closed)
      × (Pair.authorize r q session ≡ none)
      × (Pair.end_all q later ≡ Pair.silent q)
      × ((Pair.ingest r q packet).frames ≡ [])
unfolding Pair.open_stream Pair.accept_stream Pair.authorize Pair.end_all
terminate_lem r p e later notify port session packet running =
    let q : Pair.Pair = (Pair.terminate p e notify).pair in
    let shut : q.closed ≡ true = terminate-closed p e notify in
    (
      terminate-Ended p e notify running,
      terminate-streams p e notify running,
      ground (arith, shut),
      ground (arith, shut),
      ground (arith, shut),
      terminate-silent q later true shut,
      closed-quiet r q packet shut,
    )
