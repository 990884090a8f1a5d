-- ===== src/Models/Ports.antt =====
-- The port that `_next_host_port` of backend/app/services/model_service.py finds.
use my_frist_reop.Prelude.{
  ℕ, zero, suc, ◌+◌, ◌≤◌, ◌<◌, ◌≡◌, refl, inl, inr, true, false, List, [], ◌∷◌, length, elem, leb,
  ◌==◌, Bool-cases, arith, if◌then◌else◌,
}
use my_frist_reop.Models.{ModelInstance, used_ports, next_free, next_host_port}

-- How many of the used ports are not below `port`.
abbrev count_from : ℕ → List ℕ → ℕ
count_from port [] = 0
count_from port (u ∷ us) = let rest = count_from port us in if leb port u then suc rest else rest

count_from_le : (port : ℕ) (us : List ℕ) → count_from port us ≤ length us
count_from_le port [] = omega arith
count_from_le port (u ∷ us) = ground (arith, count_from_le port us)

count_from_next : (port : ℕ) (us : List ℕ) → count_from (port + 1) us ≤ count_from port us
count_from_next port [] = omega arith
count_from_next port (u ∷ us) = ground (arith, count_from_next port us)

count_from_used :
    (port : ℕ) (us : List ℕ) → elem port us ≡ true → count_from (port + 1) us < count_from port us
count_from_used port [] h = absurd (cc)
count_from_used port (u ∷ us) h = elim (Bool-cases (port == u)) [
  | inl e ↦ ground (arith, count_from_next port us)
  | inr e ↦ ground (arith, count_from_used port us (ground arith))
]

count_from_zero : (port : ℕ) (us : List ℕ) → count_from port us ≡ 0 → elem port us ≡ false
count_from_zero port [] h = refl
count_from_zero port (u ∷ us) h = ground (arith, count_from_zero port us)

-- The least port from `from` on that is not used.
abbrev pub IsLeastFree : ℕ → List ℕ → ℕ → Type 0
IsLeastFree from used port =
    (elem port used ≡ false) × (from ≤ port) × ((q : ℕ) → from ≤ q → q < port → elem q used ≡ true)

next_free-IsLeastFree :
    (fuel port : ℕ) (used : List ℕ)
    → count_from port used ≤ fuel
    → IsLeastFree port used (next_free fuel port used)
unfolding next_free
next_free-IsLeastFree zero port used h =
    (count_from_zero port used (omega arith), omega arith, λ q a b. absurd (omega arith))
next_free-IsLeastFree (suc fuel) port used h = elim (Bool-cases (elem port used)) [
  | inr e ↦ rw (e, next_free) (e, omega arith, λ q a b. absurd (omega arith))
  | inl e ↦
      let (free, above, least) =
        next_free-IsLeastFree fuel (port + 1) used
          (omega (arith, count_from_used port used e, h)) in
      rw (e, next_free)
        (
          free,
          omega (arith, above),
          λ q a b. elim (Bool-cases (q == port)) [
            | inl same ↦ let k : q ≡ port = ground arith in rw k e
            | inr other ↦ least q (ground arith) b
          ],
        )
]

-- The loop ends, and it finds the least port from 8001 on that no instance on the node has.
pub next_host_port-IsLeastFree :
    (node_id : ℕ) (is : List ModelInstance)
    → IsLeastFree 8001 (used_ports node_id is) (next_host_port node_id is)
unfolding next_host_port
next_host_port-IsLeastFree node_id is =
    next_free-IsLeastFree (length (used_ports node_id is)) 8001 (used_ports node_id is)
      (count_from_le 8001 (used_ports node_id is))
