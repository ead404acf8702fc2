-- ===== src/Client/Catalog.antt =====
-- allocators.go: the allocators a client knows and the ranking of their offers. A list that the code
-- sorts is kept in the map's order, except that the head of the ranking is the least candidate.
use r1s.Base.{
  ℕ, ◌&&◌, ◌||◌, not, Bool, true, false, Option, none, some, List, [], ◌∷◌, Bytes, Assoc, get, put,
  delete, blank, is_empty, is_none, beq, ltb, ◌==◌, if◌then◌else◌, hex_encode, Checked, ok, err,
}
use r1s.Protocol.Messages.{NodeCapabilities, PlacementConstraints, as_time}
use r1s.Protocol.Placement.{placement_matches, placement_compatible, contains}
use r1s.Client.State.{ClientError, invalid_allocator, Allocator, OfferRecord, Client}

unfoldable pub lookup : Assoc Allocator → Bytes → Option Allocator
lookup catalog identity = get (hex_encode identity) catalog

unfoldable pub put_allocator : Assoc Allocator → Allocator → Assoc Allocator
put_allocator catalog candidate = put (hex_encode candidate.identity) candidate catalog

unfoldable pub remove_allocator : Assoc Allocator → Bytes → Assoc Allocator
remove_allocator catalog identity = delete (hex_encode identity) catalog

-- What a registration keeps of the allocator's previous one.
unfoldable pub merge_allocator : Option Allocator → Allocator → Allocator
merge_allocator none candidate = candidate
merge_allocator (some previous) candidate = record candidate {
  capacity = if is_none candidate.capacity then previous.capacity else candidate.capacity;
  hops = if is_none candidate.capacity then previous.hops else candidate.hops;
  node = if is_none candidate.node then previous.node else candidate.node;
  tunnel_host = if candidate.tunnel_port == 0 then previous.tunnel_host else candidate.tunnel_host;
  tunnel_port = if candidate.tunnel_port == 0 then previous.tunnel_port else candidate.tunnel_port;
  tunnel_destination =
      if candidate.tunnel_port == 0
      then previous.tunnel_destination
      else candidate.tunnel_destination;
}

unfoldable pub register_allocator : Client → Allocator → Checked ClientError Client
unfolding lookup put_allocator merge_allocator
register_allocator c candidate =
    if is_empty candidate.identity || blank candidate.destination
    then err invalid_allocator
    else ok (record c {
      allocators =
          put_allocator c.allocators
            (merge_allocator (lookup c.allocators candidate.identity) candidate);
    })

-- The slots of a class; a nil map or a missing class has none.
abbrev slots_for : Bytes → Option (Assoc ℕ) → ℕ
slots_for class none = 0
slots_for class (some m) = elim (get class m) [ none ↦ 0 | some n ↦ n ]

unfoldable pub allocator_destinations :
    Bytes → Option PlacementConstraints → Assoc Allocator → List Bytes
allocator_destinations class constraints [] = []
allocator_destinations class constraints ((k, a) ∷ m) =
    let rest : List Bytes = allocator_destinations class constraints m in
    if slots_for class a.capacity == 0 || not (placement_compatible constraints a.node)
    then rest
    else a.destination ∷ rest

-- bytes.Compare and `<` on strings.
unfoldable pub less_bytes : Bytes → Bytes → Bool
less_bytes [] [] = false
less_bytes [] (y ∷ ys) = true
less_bytes (x ∷ xs) [] = false
less_bytes (x ∷ xs) (y ∷ ys) = if x == y then less_bytes xs ys else ltb x y

unfoldable pub node_caches : Option NodeCapabilities → Bytes → Bool
node_caches none image = false
node_caches (some node) image = contains node.cached_images image

-- A live offer under its key, with the allocator that made it.
pub record Candidate : Type 0 where
  pub key : Bytes
  pub held : OfferRecord
  pub allocator : Allocator

-- The offer's own node is the freshest evidence.
abbrev pub evidence : OfferRecord → Allocator → Option NodeCapabilities
evidence o a = elim o.offer.node [ none ↦ a.node | some node ↦ some node ]

abbrev pub usable : ℕ → Option PlacementConstraints → OfferRecord → Allocator → Bool
usable now constraints o a =
    not (blank a.destination)
    && ltb now (as_time o.offer.expires_at)
    && placement_matches constraints (evidence o a)

unfoldable pub candidates :
    Assoc Allocator → ℕ → Option PlacementConstraints → Assoc OfferRecord → List Candidate
unfolding lookup
candidates catalog now constraints [] = []
candidates catalog now constraints ((key, o) ∷ offers) =
    let rest : List Candidate = candidates catalog now constraints offers in
    elim (lookup catalog o.allocator_id) [
      | none ↦ rest
      | some a ↦
          if usable now constraints o a
          then record { key = key; held = o; allocator = a } ∷ rest
          else rest
    ]

abbrev pub cached : Bytes → Candidate → Bool
cached image x = not (is_empty image) && node_caches x.held.offer.node image

-- The ranking: hops, the image in the cache, the allocator, the offer.
unfoldable pub ranks_before : Bytes → Candidate → Candidate → Bool
unfolding node_caches less_bytes
ranks_before image l r =
    if not (l.allocator.hops == r.allocator.hops)
    then ltb l.allocator.hops r.allocator.hops
    else if cached image l && not (cached image r)
    then true
    else if not (cached image l) && cached image r
    then false
    else if not (beq l.held.allocator_id r.held.allocator_id)
    then less_bytes l.held.allocator_id r.held.allocator_id
    else less_bytes l.held.offer.offer_id r.held.offer.offer_id

-- The head of the sorted candidates.
unfoldable pub first_ranked : Bytes → Candidate → List Candidate → Candidate
unfolding ranks_before
first_ranked image best [] = best
first_ranked image best (x ∷ xs) =
    first_ranked image (if ranks_before image x best then x else best) xs

unfoldable pub head_ranked : Bytes → List Candidate → Option Candidate
unfolding first_ranked
head_ranked image [] = none
head_ranked image (x ∷ xs) = some (first_ranked image x xs)

-- chooseWithPreferences
unfoldable pub choose :
    Assoc Allocator → Assoc OfferRecord → ℕ → Option PlacementConstraints → Bytes → Option Candidate
unfolding candidates head_ranked
choose catalog offers now constraints image =
    head_ranked image (candidates catalog now constraints offers)
