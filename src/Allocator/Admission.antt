-- ===== src/Allocator/Admission.antt =====
-- admission.go: the local admission policy.
use r1s.Base.{
  Bool, true, ◌&&◌, not, none, some, [], ◌∷◌, Bytes, get, count, beq, ltb, leb, hex_encode, Checked,
  ok, ◌>>◌, stop_if,
}
use r1s.Protocol.Messages.{terminal}
use r1s.Protocol.Placement.{contains}
use r1s.Allocator.Errors.{Err, admission, capacity_exhausted}
use r1s.Allocator.State.{
  Quota, AdmissionPolicy, OfferRecord, ExecutionRecord, Allocator, is_outstanding,
}

unfoldable pub allowed : AdmissionPolicy → Bytes → Bool
allowed p id = elim p.allowed_clients [ none ↦ true | some clients ↦ contains clients id ]

unfoldable pub quota_of : AdmissionPolicy → Bytes → Quota
quota_of p id = elim (get id p.client_quotas) [ none ↦ p.default_quota | some q ↦ q ]

abbrev pub outstanding_of : Bytes → OfferRecord → Bool
outstanding_of owner o = is_outstanding o.status && beq o.client owner

abbrev pub live_of : Bytes → ExecutionRecord → Bool
live_of owner e = not (terminal e.phase) && beq e.client owner

-- admitLocked; a quota of 0 sets no limit. The counts stay below 2^32.
unfoldable pub admit : Allocator → Bytes → Bool → Checked Err (Unit {0})
admit a owner assigning =
    let id = hex_encode owner in
    let quota = quota_of a.admission id in
    let offers = count (outstanding_of owner) a.offers in
    let executions = count (live_of owner) a.executions in
    do
      stop_if (not (allowed a.admission id)) (admission ∷ [])
      stop_if (assigning && ltb 0 quota.executions && leb quota.executions executions)
          (capacity_exhausted ∷ [])
      stop_if (not assigning && ltb 0 quota.offers && leb quota.offers offers)
          (capacity_exhausted ∷ [])
      ok tt
