-- ===== src/Rpc/Balancer/RingValid.antt =====
-- The ring of `ConsistentHashLoadBalancer` stays the one of its servers, and a selection is one of them.
use mathlib.Core.Option
use async_toolkit.Base.{
  Bool-cases, count, length, ℕ, zero, suc, ◌+◌, ◌≤◌, ◌<◌, ◌≡◌, refl, sym, ap, ◌∙◌, subst, inl, inr,
  some, List, [], ◌∷◌, arith,
}
use async_toolkit.Rpc.Balancer.Ring.{
  ConsistentHash, ring_set, same_servers, add_nodes, add_servers, rebuild_hash_ring,
  rebuild_if_needed, consistent_select,
}
use async_toolkit.Rpc.Balancer.RingSearch.{
  same_servers_lem, Sorted, From, ring_set-Sorted, ring_set-From, ring_set-ne-nil, IsNext, HasEntry,
  at_or_after_lem,
}

module _ (hash_node : ℕ → ℕ → ℕ) where
  add_nodes-Valid :
      (servers : List ℕ) (server i left : ℕ) (ring : List (ℕ × ℕ))
      → 0 < count server servers
      → Sorted 0 ring × From servers ring
      → Sorted 0 (add_nodes hash_node server i left ring)
        × From servers (add_nodes hash_node server i left ring)
  unfolding add_nodes
  add_nodes-Valid servers server i zero ring h s = s
  add_nodes-Valid servers server i (suc left) ring h s =
      add_nodes-Valid servers server (i + 1) left _ h (
        ring_set-Sorted 0 (hash_node server i) server ring (omega arith) s.0,
        ring_set-From servers (hash_node server i) server ring h s.1,
      )

  add_servers-Valid :
      (all : List ℕ) (virtual_nodes : ℕ) (servers : List ℕ) (ring : List (ℕ × ℕ))
      → ((s : ℕ) → count s servers ≤ count s all)
      → Sorted 0 ring × From all ring
      → Sorted 0 (add_servers hash_node virtual_nodes servers ring)
        × From all (add_servers hash_node virtual_nodes servers ring)
  unfolding add_servers
  add_servers-Valid all virtual_nodes [] ring h s = s
  add_servers-Valid all virtual_nodes (server ∷ servers) ring h s =
      add_servers-Valid all virtual_nodes servers _ (λ t. omega (arith, h t))
        (add_nodes-Valid all server 0 virtual_nodes ring (ground (arith, h server)) s)

  ring_set-grows :
      (hash server : ℕ) (ring : List (ℕ × ℕ)) → length ring ≤ length (ring_set hash server ring)
  unfolding ring_set
  ring_set-grows hash server [] = omega arith
  ring_set-grows hash server ((key, other) ∷ ring) = ground (arith, ring_set-grows hash server ring)

  add_nodes-grows :
      (server i left : ℕ) (ring : List (ℕ × ℕ))
      → length ring ≤ length (add_nodes hash_node server i left ring)
  unfolding add_nodes
  add_nodes-grows server i zero ring = omega arith
  add_nodes-grows server i (suc left) ring = omega (
    arith,
    ring_set-grows (hash_node server i) server ring,
    add_nodes-grows server (i + 1) left (ring_set (hash_node server i) server ring),
  )

  add_servers-grows :
      (virtual_nodes : ℕ) (servers : List ℕ) (ring : List (ℕ × ℕ))
      → length ring ≤ length (add_servers hash_node virtual_nodes servers ring)
  unfolding add_servers
  add_servers-grows v [] ring = omega arith
  add_servers-grows v (server ∷ servers) ring = omega (
    arith,
    add_nodes-grows server 0 v ring,
    add_servers-grows v servers (add_nodes hash_node server 0 v ring),
  )

  ring_nonempty :
      (v server : ℕ) (servers : List ℕ)
      → 0 < v
      → 0 < length (rebuild_hash_ring hash_node v (server ∷ servers))
  unfolding rebuild_hash_ring add_servers add_nodes
  ring_nonempty zero server servers h = absurd (omega arith)
  ring_nonempty (suc v) server servers h =
      let first = ring_set (hash_node server 0) server [] in
      omega (
        arith,
        ring_set-ne-nil (hash_node server 0) server [],
        add_nodes-grows server 1 v first,
        add_servers-grows (suc v) servers (add_nodes hash_node server 1 v first),
      )

  abbrev pub IsValid : ConsistentHash → Type 0
  IsValid c = c.hash_ring ≡ rebuild_hash_ring hash_node c.virtual_nodes c.current_servers

  rebuild_if_needed_lem :
      (c : ConsistentHash) (servers : List ℕ)
      → IsValid c
      → IsValid (rebuild_if_needed hash_node c servers)
        × ((rebuild_if_needed hash_node c servers).current_servers ≡ servers)
        × ((rebuild_if_needed hash_node c servers).virtual_nodes ≡ c.virtual_nodes)
  unfolding rebuild_if_needed
  rebuild_if_needed_lem c servers valid =
      elim (Bool-cases (same_servers servers c.current_servers)) [
        | inl same ↦ rw same (valid, sym (same_servers_lem servers c.current_servers same), refl)
        | inr new ↦ rw new (refl, refl, refl)
      ]

  HasEntry-From :
      (servers : List ℕ) (key server : ℕ) (ring : List (ℕ × ℕ))
      → From servers ring
      → HasEntry key server ring
      → 0 < count server servers
  HasEntry-From servers key server [] f h = absurd h
  HasEntry-From servers key server ((k, s) ∷ ring) f (inl (e, g)) =
      subst (λ t. 0 < count t servers) g f.0
  HasEntry-From servers key server ((k, s) ∷ ring) f (inr h) =
      HasEntry-From servers key server ring f.1 h

  -- With at least one virtual node per server and a ring made for the servers of the last call, a call on
  -- some servers selects one of them: that of the ring's entry with the least key not below the hash of
  -- the time, or else with the least key. The ring after it is the one made for the servers of this call.
  pub consistent_select_lem :
      (now : ℕ) (c : ConsistentHash) (server : ℕ) (servers : List ℕ)
      → 0 < c.virtual_nodes
      → IsValid c
      → (key : ℕ) × (selected : ℕ) × (c' : ConsistentHash) × (consistent_select hash_node now c
            (server ∷ servers)
          ≡ some (selected, c'))
        × (0 < count selected (server ∷ servers))
        × IsNext now key c'.hash_ring
        × HasEntry key selected c'.hash_ring
        × IsValid c'
        × (c'.current_servers ≡ server ∷ servers)
  unfolding consistent_select rebuild_hash_ring
  consistent_select_lem now c server servers some_node valid =
      let all : List ℕ = server ∷ servers in
      let c' = rebuild_if_needed hash_node c all in
      let (valid', current, nodes) = rebuild_if_needed_lem c all valid in
      let ring : c'.hash_ring ≡ rebuild_hash_ring hash_node c.virtual_nodes all =
        valid'
        ∙ ap (λ v. rebuild_hash_ring hash_node v c'.current_servers) nodes
        ∙ ap (rebuild_hash_ring hash_node c.virtual_nodes) current in
      let (sorted, from) =
        add_servers-Valid all c.virtual_nodes all [] (λ t. omega arith) (tt, tt) in
      let (key, selected, found, next, entry) =
        at_or_after_lem now c'.hash_ring
          (subst (λ r. 0 < length r) (sym ring)
            (ring_nonempty c.virtual_nodes server servers some_node))
          (subst (Sorted 0) (sym ring) sorted) in
      (
        key,
        selected,
        c',
        ap (Option.map λ (k, s). (s, c')) found,
        HasEntry-From all key selected c'.hash_ring (subst (From all) (sym ring) from) entry,
        next,
        entry,
        valid',
        current,
      )
