-- ===== src/Subscription/Diff.antt =====
-- internal/subscription/subscription.go: `DiffHashes`.
use resin.Prelude.{
  ℕ, ◌+◌, Bool, true, false, not, ◌&&◌, none, some, List, [], ◌∷◌, ◌==◌, nat_key, ◌≡◌, arith,
  indicator,
}
use resin.Map.{load, Distinct}
use resin.Node.Hash.{Hash}
use resin.Subscription.{ManagedNodes, load_node, diff_new, diff_old, diff_hashes}

-- how often a list has a hash
abbrev pub times : Hash → List Hash → ℕ
times h [] = 0
times h (x ∷ xs) = indicator (x == h) + times h xs

abbrev pub is_managed : ManagedNodes → Hash → Bool
is_managed managed h = elim (load h managed) [ none ↦ false | some _ ↦ true ]

diff_new_lem :
    (old new : ManagedNodes) (h : Hash)
    → Distinct new
    → (times h (diff_new old new).0 ≡ indicator (is_managed new h && not (is_managed old h)))
      × (times h (diff_new old new).1 ≡ indicator (is_managed new h && is_managed old h))
unfolding diff_new load_node load
diff_new_lem old [] h d = (ground arith, ground arith)
diff_new_lem old ((k, n) ∷ new) h d = ground (arith, diff_new_lem old new h d.1)

diff_old_lem :
    (new old : ManagedNodes) (h : Hash)
    → Distinct old
    → times h (diff_old new old) ≡ indicator (is_managed old h && not (is_managed new h))
unfolding diff_old load_node load
diff_old_lem new [] h d = ground arith
diff_old_lem new ((k, n) ∷ old) h d = ground (arith, diff_old_lem new old h d.1)

-- Of two maps with distinct keys, the difference lists a hash once as added if only the new map
-- has it, once as kept if both have it, once as removed if only the old one has it, and nowhere
-- else.
pub diff_hashes_lem :
    (old new : ManagedNodes) (h : Hash)
    → Distinct old
    → Distinct new
    → let (added, kept, removed) = diff_hashes old new in
      (times h added ≡ indicator (is_managed new h && not (is_managed old h)))
      × (times h kept ≡ indicator (is_managed new h && is_managed old h))
      × (times h removed ≡ indicator (is_managed old h && not (is_managed new h)))
unfolding diff_hashes
diff_hashes_lem old new h d d' =
    let (a, k) = diff_new_lem old new h d' in (a, k, diff_old_lem new old h d)
