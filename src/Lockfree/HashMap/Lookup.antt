-- ===== src/Lockfree/HashMap/Lookup.antt =====
-- What `find` answers after each operation of `HashMap`.

use async_toolkit.Base.{
  Option-cases, if◌then◌else◌, ◌==◌, ℕ, ◌+◌, ◌≡◌, refl, ◌≢◌, ◌⊎◌, inl, inr, true, false, none, some,
  List, [], ◌∷◌, arith,
}
use async_toolkit.Lockfree.HashMap.{Node, HashMap, holds, find_in, remove_in, update_in, bucket}
use async_toolkit.Lockfree.HashMap

-- How many values of the key are in the bucket.
abbrev pub entries : ℕ → List Node → ℕ
entries key [] = 0
entries key (node ∷ nodes) = (if holds key node then 1 else 0) + entries key nodes

update_in-none :
    (key v : ℕ) (nodes : List Node) → (update_in key v nodes ≡ none) → find_in key nodes ≡ none
unfolding update_in find_in
update_in-none key v [] e = refl
update_in-none key v (node ∷ nodes) e = ground (arith, update_in-none key v nodes)

update_in-some :
    (key v : ℕ) (nodes : List Node) {after : List Node}
    → update_in key v nodes ≡ some after
    → find_in key nodes ≢ none
unfolding update_in find_in
update_in-some key v [] e = cc
update_in-some key v (node ∷ nodes) e = elim (Option-cases (update_in key v nodes)) [
  | inl f ↦ ground (arith, f)
  | inr (rest, f) ↦ ground (arith, update_in-some key v nodes f)
]

update_in-find :
    (key v other : ℕ) (nodes : List Node) {after : List Node}
    → update_in key v nodes ≡ some after
    → find_in other after ≡ (if key == other then some v else find_in other nodes)
unfolding update_in find_in holds
update_in-find key v other [] e = cc
update_in-find key v other (node ∷ nodes) e = elim (Option-cases (update_in key v nodes)) [
  | inl f ↦ ground (arith, f)
  | inr (rest, f) ↦ ground (arith, update_in-find key v other nodes f)
]

entries-find : (key : ℕ) (nodes : List Node) → entries key nodes ≡ 0 → find_in key nodes ≡ none
unfolding find_in
entries-find key [] e = refl
entries-find key (node ∷ nodes) e = ground (arith, entries-find key nodes)

module _ (buckets : ℕ) (hash : ℕ → ℕ) where
  -- An update changes the value of a key that is there and of no other; where the key is not there it
  -- fails and changes nothing.
  pub find-update :
      (m : HashMap) (key value other : ℕ)
      → let (done, m') = HashMap.update buckets hash m key value in
        ((done ≡ true)
          × (m'.size ≡ m.size)
          × (HashMap.find buckets hash m key ≢ none)
          × (HashMap.find buckets hash m' other
              ≡ (if key == other then some value else HashMap.find buckets hash m other)))
        ⊎ ((done ≡ false) × (m' ≡ m) × (HashMap.find buckets hash m key ≡ none))
  unfolding HashMap.update HashMap.find
  find-update m key value other =
      let nodes = m.buckets (bucket buckets hash key) in
      elim (Option-cases (update_in key value nodes)) [
        | inl e ↦ inr (rw (e, HashMap.update) (refl, refl, update_in-none key value nodes e))
        | inr (after, e) ↦
            let found = update_in-find key value other nodes e in
            inl (
              rw (e, HashMap.update)
                (refl, refl, update_in-some key value nodes e, ground (arith, found)))
      ]

  -- After a removal that follows an insertion, the key has what it had before both.
  pub remove-insert :
      (m : HashMap) (key value other : ℕ)
      → let m' = (HashMap.remove buckets hash (HashMap.insert buckets hash m key value).1 key).1 in
        HashMap.find buckets hash m' other ≡ HashMap.find buckets hash m other
  unfolding HashMap.remove HashMap.insert HashMap.find remove_in holds
  remove-insert m key value other = ground arith
