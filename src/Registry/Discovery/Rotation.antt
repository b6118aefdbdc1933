-- ===== src/Registry/Discovery/Rotation.antt =====
-- pickNode and switchNode of pkg/registry/discovery/discovery.go.
use native.Mathlib.Nat.{mod-eq_of_lt, mod-lt, div-add-mod, mul-add-mod_self_left}
use nmid.Prelude.{
  ℕ, zero, suc, ◌+◌, ◌-◌, ◌*◌, ◌/◌, ◌%◌, ◌^◌, ◌≤◌, ◌<◌, ◌≡◌, ap, ◌∙◌, ◌∷◌, List, some, arith,
  length, get_elem?, leb, Bool-cases, inl, inr,
}
use nmid.Wire.{Bytes}
use nmid.Registry.Discovery.{Discovery, pick_node, switch_node}

abbrev pub switched : ℕ → Discovery → Discovery
switched zero d = d
switched (suc k) d = switch_node (switched k d)

switched_lem :
    (k : ℕ) (d : Discovery)
    → d.node_idx + k < 2 ^ 64
    → switched k d ≡ record d { node_idx = d.node_idx + k }
unfolding switch_node
switched_lem zero d h = ap (λ i. record d { node_idx = i }) (omega arith)
switched_lem (suc k) d h =
    rw (switched_lem k d (omega arith))
      (ap (λ i. record d { node_idx = i }) (mod-eq_of_lt (omega arith) ∙ omega arith))

-- How often to switch until the index stands at `i`.
distance : (n i idx : ℕ) → i < n → (k : ℕ) × (k < n) × ((idx + k) % n ≡ i)
distance n i idx h =
    let r = idx % n in
    let q = idx / n in
    let whole : n * q + r ≡ idx = div-add-mod idx n in
    let small : r < n = mod-lt idx (omega arith) in
    elim (Bool-cases (leb r i)) [
      | inl le ↦
          let le' : r ≤ i = ground (arith, le) in
          let e : idx + (i - r) ≡ n * q + i = omega (arith, whole, le') in
          (i - r, omega (arith, h), rw e (mul-add-mod_self_left n q i ∙ mod-eq_of_lt h))
      | inr gt ↦
          let gt' : i < r = ground (arith, gt) in
          let once : n * (q + 1) ≡ n * q + n = omega arith in
          let e : idx + (i + n - r) ≡ n * (q + 1) + i = omega (arith, whole, small, once) in
          (
            i + n - r,
            omega (arith, gt', small),
            rw e (mul-add-mod_self_left n (q + 1) i ∙ mod-eq_of_lt h),
          )
    ]

-- While the index does not wrap, each node of the cluster is asked after fewer failures than there
-- are nodes.
pub pick_node-switched :
    (n : Bytes) (nodes : List Bytes) (i draw : ℕ) (d : Discovery)
    → d.node ≡ some (n ∷ nodes)
    → i < length (n ∷ nodes)
    → d.node_idx + length (n ∷ nodes) < 2 ^ 64
    → (k : ℕ) × (k < length (n ∷ nodes)) × (pick_node draw (switched k d) ≡ get_elem? (n ∷ nodes) i)
unfolding pick_node
pick_node-switched n nodes i draw d e h small =
    let (k, less, at) = distance (length (n ∷ nodes)) i d.node_idx h in
    (k, less, rw (switched_lem k d (omega arith), e) (ap (get_elem? (n ∷ nodes)) at))
