-- ===== src/Lockfree/BPlusTree/Route.antt =====
-- Where `find_child` sends a key, and where `merge_nodes` finds a child in its parent.
use async_toolkit.Base.{
  Bool-cases, leb, ◌==◌, ℕ, zero, suc, ◌+◌, ◌≤◌, ◌<◌, ◌≡◌, refl, ap, ◌≢◌, inl, inr, arith, dec_lt,
}
use async_toolkit.Lockfree.BPlusTree.Internal.{Internal, child_position, find_child, index_of}

-- `find_child` takes the child at `pos` for the key.
pub record IsRoute (n : Internal) (key pos : ℕ) : Type 0 where
  pub bound : pos ≤ n.size
  pub before : (i : ℕ) → i < pos → n.keys i ≤ key
  pub after : pos < n.size → key < n.keys pos

child_position-route :
    (k pos : ℕ) (keys : ℕ → ℕ) (key : ℕ)
    → ((i : ℕ) → i < pos → keys i ≤ key)
    → let p = child_position k pos keys key in
      (p ≤ pos + k) × ((i : ℕ) → i < p → keys i ≤ key) × (p < pos + k → key < keys p)
unfolding child_position
child_position-route zero pos keys key h = (omega arith, h, λ p. absurd (omega arith))
child_position-route (suc k) pos keys key h = elim (Bool-cases (leb (keys pos) key)) [
  | inl passed ↦
      let (a, b, c) =
        child_position-route k (pos + 1) keys key (λ i l. ground (arith, h i, passed)) in
      rw passed (omega (arith, a), b, λ p. c (omega arith))
  | inr reached ↦ rw reached (omega arith, h, λ p. ground (arith, reached))
]

abbrev pub route : Internal → ℕ → ℕ
route n key = child_position n.size 0 n.keys key

pub route-IsRoute : (n : Internal) (key : ℕ) → IsRoute n key (route n key)
route-IsRoute n key =
    let (a, b, c) = child_position-route n.size 0 n.keys key (λ i h. absurd (omega arith)) in
    record { bound = omega (arith, a); before = b; after = λ p. c (omega arith) }

route_unique : (n : Internal) (key p q : ℕ) → IsRoute n key p → IsRoute n key q → p ≡ q
route_unique n key p q a b =
    ground (arith, a.before q, b.before p, a.after, b.after, a.bound, b.bound)

pub find_child_of_route :
    (n : Internal) (key p : ℕ) → IsRoute n key p → find_child n key ≡ n.children p
unfolding find_child
find_child_of_route n key p r =
    ap n.children (route_unique n key (route n key) p (route-IsRoute n key) r)

index_of_first :
    (k pos : ℕ) (children : ℕ → ℕ) (node : ℕ)
    → let r = index_of k pos children node in
      ((i : ℕ) → pos ≤ i → i < r → children i ≢ node)
      × (r < pos + k → children r ≡ node)
      × (pos ≤ r)
unfolding index_of
index_of_first zero pos children node =
    (λ i a b. absurd (omega arith), λ h. absurd (omega arith), omega arith)
index_of_first (suc k) pos children node = elim (Bool-cases (children pos == node)) [
  | inl here ↦ rw here (λ i a b. absurd (omega arith), λ h. ground (arith, here), omega arith)
  | inr further ↦
      let (a, b, c) = index_of_first k (pos + 1) children node in
      rw further (
        λ i l h e. elim (dec_lt pos i) [
          | yes beyond ↦ a i (omega arith) h e
          | no same ↦ let eq : i ≡ pos = omega arith in ground (arith, further)
        ],
        λ h. b (omega arith),
        omega (arith, c),
      )
]

-- Where the children are distinct, the position of one of them is found.
pub index_of_lem :
    (n : Internal) (pos : ℕ)
    → pos ≤ n.size
    → ((i j : ℕ) → i < j → j ≤ n.size → n.children i ≢ n.children j)
    → index_of (n.size + 1) 0 n.children (n.children pos) ≡ pos
index_of_lem n pos h distinct =
    let (a, b, _) = index_of_first (n.size + 1) 0 n.children (n.children pos) in
    let r = index_of (n.size + 1) 0 n.children (n.children pos) in
    elim (dec_lt r pos) [
      | yes less ↦ absurd (distinct r pos less h (b (omega arith)))
      | no more ↦ elim (dec_lt pos r) [
        | yes past ↦ absurd (a pos (omega arith) past refl)
        | no same ↦ omega arith
      ]
    ]
