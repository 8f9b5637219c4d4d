-- ===== src/Platform/Access.antt =====
-- internal/platform/routableview.go: `ReadOnlyView`, the interface of a routable view for its
-- clients, and the view that meets it.
use resin.Prelude.{
  ℕ, Bool, true, Option, none, List, length, get_elem?, ◌%◌, ◌==◌, nat_key, if◌then◌else◌, ◌≡◌, ◌↔◌,
}
use resin.Prelude.Int.{ℤ, pos}
use resin.Node.Hash.{Hash}
use resin.Platform.View.{RoutableView}
use resin.Platform.View
use resin.Platform.View.Sharding.{IsValid}
use resin.Platform.View.Picks.{Occurs, contains-range, size-range, random_pick_lem}

pub record ReadOnlyView : Type 0 where
  pub contains : Hash → Bool
  pub size : ℤ
  -- by the number that the generator draws
  pub random_pick : ℕ → Option Hash
  -- in the order of one visit
  pub range : List Hash
  pub contains_law : (h : Hash) → (contains h ≡ true) ↔ Occurs h range
  pub size_law : size ≡ pos (length range)
  pub pick_law :
      (draw : ℕ)
      → random_pick draw
        ≡ (if length range == 0 then none else get_elem? range (draw % length range))

-- A `RoutableView` that keeps its invariant meets the interface.
abbrev pub read_only : (v : RoutableView) → IsValid v → ReadOnlyView
read_only v valid = record {
  contains = View.contains v;
  size = v.size;
  random_pick = View.random_pick v;
  range = View.range v;
  contains_law = contains-range v valid;
  size_law = size-range v valid;
  pick_law = random_pick_lem v valid;
}
