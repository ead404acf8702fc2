-- ===== src/Protocol.antt =====
-- internal/protocol: the wire messages (api/gen/r1s/v1), placement, and the validation of envelopes.
pub mod Messages
pub mod Placement
pub mod PlacementLaws
pub mod Validate
pub mod ValidateLaws
