-- ===== src/Protocol/PlacementLaws.antt =====
-- placement.go: what the matching of constraints against a node decides.
use r1s.Base.{
  ◌≡◌, refl, ◌↔◌, ◌⊎◌, inl, true, false, none, some, List, [], ◌∷◌, ◌++◌, String, Bytes, Assoc,
  beq_iff, get, All, arith,
}
use r1s.Protocol.Messages.{NodeCapabilities, PlacementConstraints}
use r1s.Protocol.Placement.{
  contains, label, field_differs, labels_match, devices_match, placement_matches, missing_labels,
  missing_devices, missing, validate_constraints, bad_value, capability_value, labels_problem,
}

-- A required field is absent or equal to the node's.
abbrev pub FieldFits : Bytes → Bytes → Type 0
FieldFits required actual = (required ≡ []) ⊎ (required ≡ actual)

abbrev pub Has : Bytes → List Bytes → Type 0
Has d [] = ⊥
Has d (x ∷ xs) = (x ≡ d) ⊎ Has d xs

-- The node meets every constraint, said without the code's tests.
pub record Satisfies (c : PlacementConstraints) (node : NodeCapabilities) : Type 0 where
  pub os_fits : FieldFits c.os node.os
  pub arch_fits : FieldFits c.arch node.arch
  pub runtime_fits : FieldFits c.runtime node.runtime
  pub labels_fit : All (λ e. label e.0 node.labels ≡ e.1) c.labels
  pub devices_fit : All (λ d. Has d node.devices) c.devices

field_iff : (r a : Bytes) → (field_differs r a ≡ false) ↔ FieldFits r a
field_iff [] a = (λ _. inl refl, λ _. refl)
field_iff (x ∷ r) a = ground (arith, beq_iff (x ∷ r) a)

contains_iff : (have : List Bytes) (d : Bytes) → (contains have d ≡ true) ↔ Has d have
unfolding contains
contains_iff [] d = (λ h. cc, λ h. absurd h)
contains_iff (x ∷ xs) d = ground (arith, beq_iff x d, contains_iff xs d)

labels_iff :
    (need have : Assoc Bytes)
    → (labels_match need have ≡ true) ↔ All (λ e. label e.0 have ≡ e.1) need
unfolding labels_match
labels_iff [] have = (λ _. tt, λ _. refl)
labels_iff ((k, v) ∷ m) have = ground (arith, beq_iff (label k have) v, labels_iff m have)

devices_iff :
    (need have : List Bytes) → (devices_match need have ≡ true) ↔ All (λ d. Has d have) need
unfolding devices_match
devices_iff [] have = (λ _. tt, λ _. refl)
devices_iff (d ∷ ds) have = ground (arith, contains_iff have d, devices_iff ds have)

placement_matches_sound :
    (c : PlacementConstraints) (node : NodeCapabilities)
    → placement_matches (some c) (some node) ≡ true
    → Satisfies c node
unfolding placement_matches
placement_matches_sound c node h = record {
  os_fits = (field_iff c.os node.os).0 (ground arith);
  arch_fits = (field_iff c.arch node.arch).0 (ground arith);
  runtime_fits = (field_iff c.runtime node.runtime).0 (ground arith);
  labels_fit = (labels_iff c.labels node.labels).0 (ground arith);
  devices_fit = (devices_iff c.devices node.devices).0 (ground arith);
}

placement_matches_complete :
    (c : PlacementConstraints) (node : NodeCapabilities)
    → Satisfies c node
    → placement_matches (some c) (some node) ≡ true
unfolding placement_matches
placement_matches_complete c node s =
    rw
      (
        (field_iff c.os node.os).1 s.os_fits,
        (field_iff c.arch node.arch).1 s.arch_fits,
        (field_iff c.runtime node.runtime).1 s.runtime_fits,
        (labels_iff c.labels node.labels).1 s.labels_fit,
      )
      ((devices_iff c.devices node.devices).1 s.devices_fit)

-- PlacementMatches answers true exactly when the node meets every constraint: each required field
-- is equal to the node's, each required label reads as asked, each required device is declared.
pub placement_matches_iff :
    (c : PlacementConstraints) (node : NodeCapabilities)
    → (placement_matches (some c) (some node) ≡ true) ↔ Satisfies c node
placement_matches_iff c node = (placement_matches_sound c node, placement_matches_complete c node)

missing_labels_iff :
    (need have : Assoc Bytes) → (missing_labels need have ≡ []) ↔ (labels_match need have ≡ true)
unfolding missing_labels labels_match
missing_labels_iff [] have = (λ _. refl, λ _. refl)
missing_labels_iff ((k, v) ∷ m) have = ground (arith, missing_labels_iff m have)

missing_devices_iff :
    (need have : List Bytes) → (missing_devices need have ≡ []) ↔ (devices_match need have ≡ true)
unfolding missing_devices devices_match
missing_devices_iff [] have = (λ _. refl, λ _. refl)
missing_devices_iff (d ∷ ds) have = ground (arith, missing_devices_iff ds have)

append-eq-nil : (xs ys : List Bytes) → xs ++ ys ≡ [] → (xs ≡ []) × (ys ≡ [])
append-eq-nil [] ys h = (refl, h)
append-eq-nil (x ∷ xs) ys h = cc

-- PlacementConflictDetails lists a missing item exactly when PlacementMatches refuses the node.
pub missing_iff :
    (c : PlacementConstraints) (node : NodeCapabilities)
    → (missing c node ≡ []) ↔ (placement_matches (some c) (some node) ≡ true)
unfolding missing placement_matches
missing_iff c node = ground (
  arith,
  missing_labels_iff c.labels node.labels,
  missing_devices_iff c.devices node.devices,
  append-eq-nil (missing_labels c.labels node.labels) (missing_devices c.devices node.devices),
)

label_present :
    (k v : Bytes) (have : Assoc Bytes)
    → bad_value v ≡ false
    → label k have ≡ v
    → get k have ≡ some v
unfolding capability_value
label_present k v have good h = ground arith

valid_labels_present :
    (f : String) (need have : Assoc Bytes)
    → labels_problem f need ≡ none
    → All (λ e. label e.0 have ≡ e.1) need
    → All (λ e. get e.0 have ≡ some e.1) need
unfolding labels_problem
valid_labels_present f [] have valid fits = tt
valid_labels_present f ((k, v) ∷ m) have valid fits = (
  label_present k v have (ground arith) fits.0,
  valid_labels_present f m have (ground arith) fits.1,
)

valid_labels :
    (c : PlacementConstraints)
    → validate_constraints (some c) ≡ none
    → labels_problem "placement_constraints.labels" c.labels ≡ none
unfolding validate_constraints
valid_labels c h = ground arith

-- For constraints that pass ValidateConstraints a match means that the node really carries every
-- required label, so reading a missing label as the empty string cannot satisfy one.
pub matched_labels_present :
    (c : PlacementConstraints) (node : NodeCapabilities)
    → validate_constraints (some c) ≡ none
    → placement_matches (some c) (some node) ≡ true
    → All (λ e. get e.0 node.labels ≡ some e.1) c.labels
matched_labels_present c node valid h =
    valid_labels_present "placement_constraints.labels" c.labels node.labels (valid_labels c valid)
      (placement_matches_sound c node h).labels_fit
