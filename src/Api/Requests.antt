-- ===== src/Api/Requests.antt =====
-- What the checks and the defaults of a create request give.
use pumpkin_pie.Prelude.{
  ◌≡◌, refl, ap, ap₂, nat_eq→eq, ℕ, ◌%◌, ◌^◌, String, Bool, true, false, ◌==◌, Option, none, some,
  List, [], ◌∷◌, any, length, nat_eq, nat_eq_refl, Bool-cases, inl, inr, arith,
}
use pumpkin_pie.Prelude.Rows.{Distinct}
use pumpkin_pie.Exec.{ok}
use pumpkin_pie.AgentMgr.Messages.{PortMapping}
use pumpkin_pie.Api.Checks.{
  CreateContainerReq, protocol_or_tcp, host_port_or, to_proto, port_mappings_to_proto,
  first_duplicate, count_pins, check_request, is_empty,
}

abbrev pub same_index : ℕ → ℕ → Bool
same_index a b = nat_eq b a

protocol_or_tcp-twice :
    (protocol : String) → protocol_or_tcp (protocol_or_tcp protocol) ≡ protocol_or_tcp protocol
unfolding protocol_or_tcp
protocol_or_tcp-twice protocol = elim (Bool-cases (protocol == "")) [
  | inl e ↦ rw e refl
  | inr e ↦ rw (e, e) refl
]

host_port_or-twice : (c h : ℕ) → host_port_or c (host_port_or c h) ≡ host_port_or c h
unfolding host_port_or
host_port_or-twice c h = ground arith

to_proto-to_proto : (p : PortMapping) → to_proto (to_proto p) ≡ to_proto p
unfolding to_proto
to_proto-to_proto p =
    rw (protocol_or_tcp-twice p.protocol, host_port_or-twice p.container_port p.host_port) refl

-- The defaults of port mappings are filled in once and for all: a list that went through
-- portMappingsToProto does not change when it goes through it again, as it does when it is read
-- back from the row.
pub port_mappings_to_proto_idem :
    (ps : List PortMapping)
    → port_mappings_to_proto (port_mappings_to_proto ps) ≡ port_mappings_to_proto ps
unfolding port_mappings_to_proto
port_mappings_to_proto_idem [] = refl
port_mappings_to_proto_idem (p ∷ ps) =
    ap₂ ◌∷◌ (to_proto-to_proto p) (port_mappings_to_proto_idem ps)

-- Where no duplicate is found, none of the indices was seen and no two are the same.
first_duplicate-none :
    (seen is : List ℕ)
    → first_duplicate seen is ≡ none
    → Distinct same_index is
      × ((i : ℕ) → any (nat_eq i) seen ≡ true → any (same_index i) is ≡ false)
unfolding first_duplicate any
first_duplicate-none seen [] h = (tt, λ i e. refl)
first_duplicate-none seen (j ∷ js) h = elim (Bool-cases (any (nat_eq j) seen)) [
  | inl e ↦ absurd (ground (arith, h, e))
  | inr e ↦
      let (distinct, unseen) = first_duplicate-none (j ∷ seen) js (ground (arith, h, e)) in
      (
        (unseen j (ground (arith, nat_eq_refl j)), distinct),
        λ i s. elim (Bool-cases (nat_eq j i)) [
          | inl f ↦ absurd (cc (ap (λ k. any (nat_eq k) seen) (nat_eq→eq j i f), s, e))
          | inr f ↦ rw f (unseen i (ground (arith, s)))
        ],
      )
]

count_pins-ok :
    (req : CreateContainerReq) (found : Option ℕ) (checked : CreateContainerReq)
    → count_pins req found ≡ ok checked
    → (found ≡ none) × (checked ≡ record req { gpu_count = length req.gpu_indices % 2 ^ 32 })
unfolding count_pins
count_pins-ok req (some i) checked h = absurd (cc)
count_pins-ok req none checked h = (refl, ground (arith, h))

-- A create request with pinned GPUs that passes the checks names an image and a node, pins no index
-- twice, and asks for as many GPUs as it pins (as a uint32); nothing but the count is changed.
pub check_request-ok :
    (req checked : CreateContainerReq)
    → is_empty req.gpu_indices ≡ false
    → check_request req ≡ ok checked
    → ((req.image == "") ≡ false)
      × ((req.node_id == "") ≡ false)
      × Distinct same_index req.gpu_indices
      × (checked ≡ record req { gpu_count = length req.gpu_indices % 2 ^ 32 })
unfolding check_request
check_request-ok req checked pins h = elim (Bool-cases (req.image == "")) [
  | inl e ↦ absurd (ground (arith, h, e))
  | inr e ↦ elim (Bool-cases (req.node_id == "")) [
    | inl f ↦ absurd (ground (arith, h, e, pins, f))
    | inr f ↦
        let (found, same) =
          count_pins-ok req (first_duplicate [] req.gpu_indices) checked
            (ground (arith, h, e, f, pins)) in
        (e, f, (first_duplicate-none [] req.gpu_indices found).0, same)
  ]
]
