-- ===== src/Platform/View/Index.antt =====
-- internal/platform/routableview.go: one shard. Its index says where each hash stands in `nodes`.
use resin.Prelude.{
  ℕ, ◌+◌, ◌-◌, ◌<◌, true, false, none, some, [], ◌∷◌, ◌==◌, ◌≢◌, Option-cases, Bool-cases, inl, inr,
  length, get_elem?, set, take, if◌then◌else◌, nat_key, arith, ◌≡◌, get_elem?-take, get_elem?-set,
  get_elem?-snoc, length-append, length-set, length-take-le, get_elem?_in_range, get_elem?_bound,
}
use resin.Map.{load, store, remove, Distinct}
use resin.Map.Laws.{load-store, load-remove, store-Distinct, remove-Distinct}
use resin.Node.Hash.{Hash}
use resin.Platform.View.{Shard, add_shard, remove_shard, move_last, shard_contains}

pub record IsIndexed (s : Shard) : Type 0 where
  pub distinct : Distinct s.index
  pub found : (h : Hash) (i : ℕ) → load h s.index ≡ some i → get_elem? s.nodes i ≡ some h
  pub placed : (h : Hash) (i : ℕ) → get_elem? s.nodes i ≡ some h → load h s.index ≡ some i

module _ (h : Hash) (s : Shard) (v : IsIndexed s) where
  abbrev n : ℕ
  n = length s.nodes

  add_new : load h s.index ≡ none → IsIndexed (add_shard h s).0
  unfolding add_shard
  add_new e =
      rw (e, add_shard)
        (record {
          distinct = store-Distinct h n s.index v.distinct;
          found = λ q i k. ground (
            arith,
            load-store h q n s.index,
            get_elem?-snoc s.nodes h i,
            v.found q i,
            get_elem?_bound s.nodes i {a = q},
          );
          placed = λ q i k.
              ground (arith, load-store h q n s.index, get_elem?-snoc s.nodes h i, v.placed q i);
        })

  pub add_shard-IsIndexed : IsIndexed (add_shard h s).0
  unfolding add_shard
  add_shard-IsIndexed = elim (Option-cases (load h s.index)) [
    | inl e ↦ add_new e
    | inr (i, e) ↦ rw (e, add_shard) v
  ]

  module _ (idx : ℕ) (e : load h s.index ≡ some idx) where
    last_in_range : (n - 1 < n) × (idx < n)
    last_in_range =
        let b = get_elem?_bound s.nodes idx {a = h} (v.found h idx e) in (omega arith, b)

    -- the last hash stays where it is
    remove_last :
        idx ≡ n - 1 → IsIndexed (record { nodes = take (n - 1) s.nodes; index = remove h s.index })
    remove_last last = record {
      distinct = remove-Distinct h s.index v.distinct;
      found = λ q i k. ground (
        arith,
        load-remove h q s.index v.distinct,
        get_elem?-take s.nodes (n - 1) i,
        v.found q i,
        v.placed h idx,
        v.found h idx e,
        get_elem?_bound s.nodes i {a = q},
      );
      placed = λ q i k. ground (
        arith,
        load-remove h q s.index v.distinct,
        get_elem?-take s.nodes (n - 1) i,
        v.placed q i,
      );
    }

    -- the last hash takes the place of the removed one
    remove_moved :
        (moved : Hash)
        → idx ≢ n - 1
        → get_elem? s.nodes (n - 1) ≡ some moved
        → IsIndexed (record {
          nodes = take (n - 1) (set s.nodes idx moved);
          index = remove h (store moved idx s.index);
        })
    remove_moved moved other at_last = record {
      distinct = remove-Distinct h _ (store-Distinct moved idx s.index v.distinct);
      found = λ q i k. ground (
        arith,
        load-remove h q (store moved idx s.index) (store-Distinct moved idx s.index v.distinct),
        load-store moved q idx s.index,
        get_elem?-take (set s.nodes idx moved) (n - 1) i,
        get_elem?-set s.nodes idx i moved last_in_range.1,
        v.found q i,
        v.found h idx e,
        get_elem?_bound s.nodes i {a = q},
        last_in_range,
      );
      placed = λ q i k. ground (
        arith,
        load-remove h q (store moved idx s.index) (store-Distinct moved idx s.index v.distinct),
        load-store moved q idx s.index,
        get_elem?-take (set s.nodes idx moved) (n - 1) i,
        get_elem?-set s.nodes idx i moved last_in_range.1,
        v.placed q i,
        v.placed h idx,
        v.placed moved (n - 1) at_last,
        last_in_range,
      );
    }

  pub remove_shard-IsIndexed : IsIndexed (remove_shard h s).0
  unfolding remove_shard move_last
  remove_shard-IsIndexed = elim (Option-cases (load h s.index)) [
    | inl e ↦ rw (e, remove_shard) v
    | inr (idx, e) ↦
        let (moved, at_last) = get_elem?_in_range s.nodes (n - 1) (last_in_range idx e).0 in
        elim (Bool-cases (idx == (n - 1))) [
          | inl here ↦ rw (e, remove_shard, here) (remove_last idx e (ground arith))
          | inr other ↦
              rw (e, remove_shard, other, move_last, at_last)
                (remove_moved idx e moved (ground arith) at_last)
        ]
  ]

  -- A hash is indexed exactly if it is not the removed one and was indexed before.
  pub load-remove_shard :
      (q : Hash)
      → shard_contains q (remove_shard h s).0 ≡ (if h == q then false else shard_contains q s)
  unfolding remove_shard move_last shard_contains
  load-remove_shard q = elim (Option-cases (load h s.index)) [
    | inl e ↦ rw (e, remove_shard) (ground arith)
    | inr (idx, e) ↦
        let (moved, at_last) = get_elem?_in_range s.nodes (n - 1) (last_in_range idx e).0 in
        elim (Bool-cases (idx == (n - 1))) [
          | inl here ↦
              rw (e, remove_shard, here) (ground (arith, load-remove h q s.index v.distinct))
          | inr other ↦
              rw (e, remove_shard, other, move_last, at_last)
                (ground (
                  arith,
                  load-remove h q (store moved idx s.index)
                      (store-Distinct moved idx s.index v.distinct),
                  load-store moved q idx s.index,
                  v.placed moved (n - 1) at_last,
                ))
        ]
  ]

  pub load-add_shard :
      (q : Hash)
      → shard_contains q (add_shard h s).0 ≡ (if h == q then true else shard_contains q s)
  unfolding add_shard shard_contains
  load-add_shard q = ground (arith, load-store h q n s.index)

  pub length-add_shard : length (add_shard h s).0.nodes ≡ length s.nodes + (add_shard h s).1
  unfolding add_shard
  length-add_shard = ground (arith, length-append s.nodes (h ∷ []))

  pub length-remove_shard :
      length (remove_shard h s).0.nodes + (remove_shard h s).1 ≡ length s.nodes
  unfolding remove_shard move_last
  length-remove_shard = elim (Option-cases (load h s.index)) [
    | inl e ↦ rw (e, remove_shard) (omega arith)
    | inr (idx, e) ↦
        let (moved, at_last) = get_elem?_in_range s.nodes (n - 1) (last_in_range idx e).0 in
        let range = last_in_range idx e in
        elim (Bool-cases (idx == (n - 1))) [
          | inl here ↦
              rw (e, remove_shard, here)
                (omega (arith, length-take-le (n - 1) s.nodes (omega (arith, range))))
          | inr other ↦
              rw (e, remove_shard, other, move_last, at_last)
                (omega (
                  arith,
                  range,
                  length-set s.nodes idx moved,
                  length-take-le (n - 1) (set s.nodes idx moved),
                ))
        ]
  ]
