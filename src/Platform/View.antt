-- ===== src/Platform/View.antt =====
-- internal/platform/routableview.go: the sharded set of routable nodes. The locks of the shards
-- make each method one step. The total is an atomic counter beside the shards.
pub mod Index
pub mod Sharding
pub mod Picks
use resin.Prelude.{
  ℕ, zero, suc, ◌+◌, ◌-◌, ◌%◌, Bool, true, false, Option, none, some, List, [], ◌∷◌, ◌++◌, ◌==◌,
  ltb, length, get_elem?, set, take, if◌then◌else◌, nat_key,
}
use resin.Prelude.Int.{ℤ, pos, negsuc, ◌+ℤ◌, ◌-ℤ◌}
use resin.Map.{Map, load, store, remove}
use resin.Node.Hash.{Hash, first_byte}

pub record Shard : Type 0 where
  pub nodes : List Hash
  pub index : Map Hash ℕ

abbrev pub new_shard : Shard
new_shard = record { nodes = []; index = [] }

pub record RoutableView : Type 0 where
  pub shards : List Shard
  pub size : ℤ

abbrev pub num_shards : ℕ
num_shards = 64

new_shards : ℕ → List Shard
new_shards zero = []
new_shards (suc n) = new_shard ∷ new_shards n

unfoldable pub new_routable_view : RoutableView
unfolding new_shards
new_routable_view = record { shards = new_shards num_shards; size = pos 0 }

unfoldable pub shard_for : Hash → ℕ
unfolding first_byte
shard_for h = first_byte h % num_shards

-- `Add` under the lock of the shard, and how much it adds to the total
unfoldable pub add_shard : Hash → Shard → Shard × ℕ
unfolding load store
add_shard h s = elim (load h s.index) [
  | some i ↦ (s, 0)
  | none ↦ (record { nodes = s.nodes ++ h ∷ []; index = store h (length s.nodes) s.index }, 1)
]

-- s.nodes[idx] = s.nodes[last]; s.index[s.nodes[idx]] = idx
unfoldable pub move_last : ℕ → ℕ → Shard → Shard
unfolding store
move_last idx last s = elim (get_elem? s.nodes last) [
  | none ↦ s
  | some moved ↦ record { nodes = set s.nodes idx moved; index = store moved idx s.index }
]

unfoldable pub remove_shard : Hash → Shard → Shard × ℕ
unfolding load remove move_last
remove_shard h s = elim (load h s.index) [
  | none ↦ (s, 0)
  | some idx ↦
      let last = length s.nodes - 1 in
      let s' : Shard = (if idx == last then s else move_last idx last s) in
      (record { nodes = take last s'.nodes; index = remove h s'.index }, 1)
]

-- the shard of a hash, changed in place
unfoldable pub on_shard : (Shard → Shard × ℕ) → ℕ → List Shard → List Shard × ℕ
on_shard f i [] = ([], 0)
on_shard f zero (s ∷ shards) = let (s', n) = f s in (s' ∷ shards, n)
on_shard f (suc i) (s ∷ shards) = let (shards', n) = on_shard f i shards in (s ∷ shards', n)

unfoldable pub add : RoutableView → Hash → RoutableView
unfolding shard_for add_shard on_shard ◌+ℤ◌
add v h =
    let (shards, n) = on_shard (add_shard h) (shard_for h) v.shards in
    record { shards = shards; size = v.size +ℤ pos n }

unfoldable pub remove_hash : RoutableView → Hash → RoutableView
unfolding shard_for remove_shard on_shard ◌-ℤ◌
remove_hash v h =
    let (shards, n) = on_shard (remove_shard h) (shard_for h) v.shards in
    record { shards = shards; size = v.size -ℤ pos n }

unfoldable pub shard_contains : Hash → Shard → Bool
unfolding load
shard_contains h s = elim (load h s.index) [ none ↦ false | some i ↦ true ]

unfoldable pub contains : RoutableView → Hash → Bool
unfolding shard_for shard_contains
contains v h = elim (get_elem? v.shards (shard_for h)) [
  | none ↦ false
  | some s ↦ shard_contains h s
]

clear_shards : List Shard → List Shard
clear_shards [] = []
clear_shards (s ∷ shards) = new_shard ∷ clear_shards shards

unfoldable pub clear : RoutableView → RoutableView
unfolding clear_shards
clear v = record { shards = clear_shards v.shards; size = pos 0 }

-- the loop of `RandomPick`, with the target that is left
unfoldable pub pick_from : List Shard → ℕ → Option Hash
pick_from [] target = none
pick_from (s ∷ shards) target =
    if ltb target (length s.nodes)
    then get_elem? s.nodes target
    else pick_from shards (target - length s.nodes)

-- `draw` is the random number that `rng.IntN` reduces below the total. `IntN` panics on a total
-- below zero; that reads as `none` here, and `size` is never negative.
unfoldable pub random_pick : RoutableView → ℕ → Option Hash
unfolding pick_from
random_pick v draw = elim v.size [
  | pos n ↦ if n == 0 then none else pick_from v.shards (draw % n)
  | negsuc n ↦ none
]

-- the order in which `Range` visits the hashes
unfoldable pub all_nodes : List Shard → List Hash
all_nodes [] = []
all_nodes (s ∷ shards) = s.nodes ++ all_nodes shards

unfoldable pub range : RoutableView → List Hash
unfolding all_nodes
range v = all_nodes v.shards
