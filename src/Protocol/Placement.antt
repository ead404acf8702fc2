-- ===== src/Protocol/Placement.antt =====
-- placement.go: bounds of node capabilities and placement constraints, and the matching of both.
use r1s.Base.{
  ℕ, Bool, true, false, ◌&&◌, ◌||◌, not, Option, none, some, List, [], ◌∷◌, ◌++◌, String, Bytes,
  Assoc, ascii, beq, get, length, is_empty, ltb, leb, ◌==◌, any, all, if◌then◌else◌,
}
use r1s.Protocol.Messages.{NodeCapabilities, PlacementConstraints}

-- ValidationError: the field and the problem.
pub record Invalid : Type 0 where
  pub field : String
  pub problem : String

abbrev pub invalid : String → String → Option Invalid
invalid f p = some (record { field = f; problem = p })

-- `if err := first; err != nil { return err }; second`
infixr 2 ◌orelse◌
abbrev pub ◌orelse◌ : Option Invalid → Option Invalid → Option Invalid
none orelse second = second
(some e) orelse second = some e

-- `if bad { return invalid(field, problem) }`
abbrev pub reject_if : Bool → String → String → Option Invalid
reject_if true f p = invalid f p
reject_if false f p = none

abbrev pub max_capability_key_len : ℕ
max_capability_key_len = 64

abbrev pub max_capability_value_len : ℕ
max_capability_value_len = 128

abbrev pub max_capability_labels : ℕ
max_capability_labels = 8

abbrev pub max_capability_devices : ℕ
max_capability_devices = 8

abbrev pub max_capability_profiles : ℕ
max_capability_profiles = 16

abbrev pub max_capability_cache : ℕ
max_capability_cache = 16

abbrev pub max_capability_cache_image : ℕ
max_capability_cache_image = 256

abbrev lower_or_digit : ℕ → Bool
lower_or_digit c = (leb b'a' c && leb c b'z') || (leb b'0' c && leb c b'9')

abbrev key_char : ℕ → Bool
key_char c = lower_or_digit c || c == b'.' || c == b'_' || c == b'/' || c == b'-'

abbrev value_char : ℕ → Bool
value_char c = key_char c || c == b':' || c == b'+'

-- ^[a-z0-9][a-z0-9._/-]*$
unfoldable pub capability_key : Bytes → Bool
capability_key [] = false
capability_key (c ∷ s) = lower_or_digit c && all key_char s

-- ^[a-z0-9][a-z0-9._/:+-]*$
unfoldable pub capability_value : Bytes → Bool
capability_value [] = false
capability_value (c ∷ s) = lower_or_digit c && all value_char s

abbrev pub bad_value : Bytes → Bool
bad_value v = ltb max_capability_value_len (length v) || not (capability_value v)

abbrev pub bad_entry : Bytes → Bool
bad_entry v = is_empty v || bad_value v

abbrev pub bad_key : Bytes → Bool
bad_key k = is_empty k || ltb max_capability_key_len (length k) || not (capability_key k)

-- The Go map of the three fields is walked in the order of its literal.
unfoldable pub fields_problem : String → String → String → Bytes → Bytes → Bytes → Option Invalid
fields_problem fo fa fr os arch runtime =
    reject_if (not (is_empty os) && bad_value os) fo bounded
    orelse reject_if (not (is_empty arch) && bad_value arch) fa bounded
    orelse reject_if (not (is_empty runtime) && bad_value runtime) fr bounded
  where
    bounded : String
    bounded = "must be lowercase ASCII and bounded"

unfoldable pub labels_problem : String → Assoc Bytes → Option Invalid
labels_problem f [] = none
labels_problem f ((k, v) ∷ m) =
    reject_if (bad_key k) f "each label key must be lowercase ASCII and bounded"
    orelse reject_if (bad_value v) f "each label value must be bounded"
    orelse labels_problem f m

unfoldable pub validate_capabilities : Option NodeCapabilities → Option Invalid
unfolding fields_problem labels_problem
validate_capabilities none = none
validate_capabilities (some node) =
    fields_problem "node_capabilities.os" "node_capabilities.arch" "node_capabilities.runtime"
      node.os node.arch node.runtime
    orelse reject_if (ltb max_capability_cache (length node.cached_images))
        "node_capabilities.cached_images" "too many entries"
    orelse reject_if
        (any (λ image. is_empty image || ltb max_capability_cache_image (length image))
          node.cached_images)
        "node_capabilities.cached_images" "entry must be a bounded image reference"
    orelse reject_if (ltb max_capability_devices (length node.devices)) "node_capabilities.devices"
        "too many devices"
    orelse reject_if (any bad_entry node.devices) "node_capabilities.devices"
        "each device must be a lowercase ASCII name"
    orelse reject_if (ltb max_capability_profiles (length node.resource_profiles))
        "node_capabilities.resource_profiles" "too many profiles"
    orelse reject_if (any bad_entry node.resource_profiles) "node_capabilities.resource_profiles"
        "each profile must be a bounded lowercase name"
    orelse reject_if (ltb max_capability_labels (length node.labels)) "node_capabilities.labels"
        "too many labels"
    orelse labels_problem "node_capabilities.labels" node.labels

unfoldable pub validate_constraints : Option PlacementConstraints → Option Invalid
unfolding fields_problem labels_problem
validate_constraints none = none
validate_constraints (some c) =
    fields_problem "placement_constraints.os" "placement_constraints.arch"
      "placement_constraints.runtime" c.os c.arch c.runtime
    orelse reject_if (ltb max_capability_devices (length c.devices)) "placement_constraints.devices"
        "too many devices"
    orelse reject_if (any bad_entry c.devices) "placement_constraints.devices"
        "each device must be a lowercase ASCII name"
    orelse reject_if (ltb max_capability_labels (length c.labels)) "placement_constraints.labels"
        "too many labels"
    orelse labels_problem "placement_constraints.labels" c.labels

unfoldable pub contains : List Bytes → Bytes → Bool
contains [] target = false
contains (value ∷ values) target = if beq value target then true else contains values target

-- A missing label reads as the empty string.
abbrev pub label : Bytes → Assoc Bytes → Bytes
label k m = elim (get k m) [ none ↦ [] | some v ↦ v ]

-- A required field that the node does not have.
abbrev pub field_differs : Bytes → Bytes → Bool
field_differs required actual = not (is_empty required) && not (beq required actual)

unfoldable pub labels_match : Assoc Bytes → Assoc Bytes → Bool
labels_match [] have = true
labels_match ((k, v) ∷ m) have = if beq (label k have) v then labels_match m have else false

unfoldable pub devices_match : List Bytes → List Bytes → Bool
devices_match [] have = true
devices_match (required ∷ rest) have =
    if contains have required then devices_match rest have else false

unfoldable pub placement_matches : Option PlacementConstraints → Option NodeCapabilities → Bool
placement_matches none _ = true
placement_matches (some c) none = false
placement_matches (some c) (some node) =
    if field_differs c.os node.os
    then false
    else if field_differs c.arch node.arch
    then false
    else if field_differs c.runtime node.runtime
    then false
    else if labels_match c.labels node.labels
    then devices_match c.devices node.devices
    else false

unfoldable pub placement_compatible : Option PlacementConstraints → Option NodeCapabilities → Bool
placement_compatible none _ = true
placement_compatible (some c) offered =
    if is_empty c.os
      && is_empty c.arch
      && is_empty c.runtime
      && is_empty c.labels
      && is_empty c.devices
    then true
    else elim offered [ none ↦ true | some node ↦ placement_matches (some c) (some node) ]

abbrev when_differs : Bool → Bytes → List Bytes
when_differs true text = text ∷ []
when_differs false text = []

unfoldable pub missing_labels : Assoc Bytes → Assoc Bytes → List Bytes
missing_labels [] have = []
missing_labels ((k, v) ∷ m) have =
    when_differs (not (beq (label k have) v)) (ascii "label=" ++ (k ++ (ascii "=" ++ v)))
    ++ missing_labels m have

unfoldable pub missing_devices : List Bytes → List Bytes → List Bytes
missing_devices [] have = []
missing_devices (required ∷ rest) have =
    when_differs (not (contains have required)) (ascii "device=" ++ required)
    ++ missing_devices rest have

-- The list `missing` of PlacementConflictDetails.
unfoldable pub missing : PlacementConstraints → NodeCapabilities → List Bytes
missing c node =
    when_differs (field_differs c.os node.os) (ascii "os=" ++ c.os)
    ++ (when_differs (field_differs c.arch node.arch) (ascii "arch=" ++ c.arch)
        ++ (when_differs (field_differs c.runtime node.runtime) (ascii "runtime=" ++ c.runtime)
            ++ (missing_labels c.labels node.labels ++ missing_devices c.devices node.devices)))

-- strings.Join(parts, ",")
unfoldable pub join_commas : List Bytes → Bytes
join_commas [] = []
join_commas (part ∷ []) = part
join_commas (part ∷ next ∷ rest) = part ++ (b',' ∷ join_commas (next ∷ rest))

abbrev no_constraints : Bytes
no_constraints = ascii "node satisfies no placement constraints"

conflict_text : List Bytes → Bytes
conflict_text [] = no_constraints
conflict_text (part ∷ parts) =
    ascii "node does not satisfy placement constraints: " ++ join_commas (part ∷ parts)

unfoldable pub placement_conflict_details :
    Option PlacementConstraints → Option NodeCapabilities → Bytes
unfolding conflict_text
placement_conflict_details none _ = no_constraints
placement_conflict_details (some c) none = no_constraints
placement_conflict_details (some c) (some node) = conflict_text (missing c node)
