-- ===== src/Protocol/ValidateLaws.antt =====
-- What an accepted message guarantees to the code behind the validation.
use r1s.Base.{
  ℕ, ◌+◌, ◌≤◌, ◌≡◌, ◌≢◌, none, some, List, [], ◌∷◌, Bytes, beq_iff, length, All, arith, ok,
  >>=-eq-ok, subst,
}
use r1s.Tunnel.Contract.{Target}
use r1s.Protocol.Messages.{TunnelTarget, Envelope, ExecutionLogsResponse}
use r1s.Protocol.Validate.{
  validate_tunnel_targets, targets_to_proto, validate_logs_response, convert_targets,
  target_problem,
}

abbrev pub IsPort : ℕ → Type 0
IsPort p = (1 ≤ p) × (p ≤ 65535)

target_problem-IsPort :
    (t : TunnelTarget) (out : Target)
    → target_problem t ≡ ok out
    → IsPort t.port × (out.port ≡ t.port)
unfolding target_problem
target_problem-IsPort t out h = ground arith

convert_targets_lem :
    (ts : List TunnelTarget) (out : List Target)
    → convert_targets ts ≡ ok out
    → All (λ t. IsPort t.port) out × (targets_to_proto out ≡ ts)
unfolding convert_targets targets_to_proto
convert_targets_lem [] out h = ground arith
convert_targets_lem (t ∷ ts) out h =
    let (a, first, rest) = >>=-eq-ok (target_problem t) _ h in
    let (bs, later, last) = >>=-eq-ok (convert_targets ts) _ rest in
    let (ports, back) = convert_targets_lem ts bs later in
    let (good, same) = target_problem-IsPort t a first in
    let whole : a ∷ bs ≡ out = ground arith in
    subst (λ o. All (λ x. IsPort x.port) o × (targets_to_proto o ≡ t ∷ ts)) whole
      ((ground arith, ports), ground arith)

-- A port list that passes ValidateTunnelTargets is converted without loss (TargetsToProto gives the
-- client's list back), is not empty, and holds ports from 1 to 65535 only, so uint16 cuts nothing.
pub validate_tunnel_targets_lem :
    (ts : List TunnelTarget) (out : List Target)
    → validate_tunnel_targets ts ≡ ok out
    → (ts ≢ []) × All (λ t. IsPort t.port) out × (targets_to_proto out ≡ ts)
unfolding validate_tunnel_targets
validate_tunnel_targets_lem [] out h = cc
validate_tunnel_targets_lem (t ∷ ts) out h =
    let (ports, back) = convert_targets_lem (t ∷ ts) out h in ((λ e. cc), ports, back)

-- A log response that passes validation covers exactly the range that it claims, in at most 64 KiB,
-- and its checksum is the one of its bytes.
pub logs_response_range :
    (sha256 : Bytes → Bytes) (e : Envelope) (r : ExecutionLogsResponse)
    → validate_logs_response sha256 e (some r) ≡ none
    → (r.next_offset ≡ r.offset + length r.contents)
      × (length r.contents ≤ 65536)
      × (sha256 r.contents ≡ r.sha256)
unfolding validate_logs_response
logs_response_range sha256 e r h = ground (arith, beq_iff (sha256 r.contents) r.sha256)
