-- ===== src/Tests/Views.antt =====
-- internal/platform/routableview.go at a view of three nodes.
use resin.Prelude.{true, some, [], ◌∷◌, ◌≡◌, ◌≢◌, refl, arith, nat_key}
use resin.Node.Hash.{Hash}
use resin.Map.{load, store}
use resin.Platform.View.{
  contains, range, random_pick, clear, new_routable_view, add, add_shard, on_shard, all_nodes,
  shard_for,
}
use resin.Platform.View.Picks.{random_pick-some, clear-new}
use resin.Tests.Data.{three_hashes, three_hashes-IsValid}

three_hashes_range : range three_hashes ≡ 3 ∷ 5 ∷ 7 ∷ []
unfolding range add new_routable_view add_shard on_shard all_nodes shard_for load store nat_key
three_hashes_range = refl

three_hashes_full : range three_hashes ≢ []
three_hashes_full e = let impossible : ⊥ = ground (arith, three_hashes_range, e) in impossible

random_pick-some_example :
    (h : Hash) × (random_pick three_hashes 4 ≡ some h) × (contains three_hashes h ≡ true)
random_pick-some_example = random_pick-some three_hashes three_hashes-IsValid 4 three_hashes_full

clear-new_example : clear three_hashes ≡ new_routable_view
clear-new_example = clear-new three_hashes three_hashes-IsValid
