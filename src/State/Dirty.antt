-- ===== src/State/Dirty.antt =====
-- internal/state/dirtyset.go: the keys that changed since the last flush. The mutex makes each
-- method one step.
use resin.Prelude.{ℕ, Option, none, some, [], ◌∷◌, Key, length, ◌≡◌, arith}
use resin.Map.{Map, load, store, Distinct}
use resin.Map.Laws.{load-store, store-Distinct}

pub data DirtyOp : Type 0 where
  op_upsert op_delete : DirtyOp

abbrev pub DirtySet : Type 0 → Type 0
DirtySet K = Map K DirtyOp

-- the marks of both, the newer first
abbrev pub newer : Option DirtyOp → Option DirtyOp → Option DirtyOp
newer (some op) old = some op
newer none old = old

module _ {K : Type 0} ⦃key : Key K⦄ where
  unfoldable pub mark_upsert : DirtySet K → K → DirtySet K
  unfolding store
  mark_upsert d k = store k op_upsert d

  unfoldable pub mark_delete : DirtySet K → K → DirtySet K
  unfolding store
  mark_delete d k = store k op_delete d

  -- the set that is left, and the snapshot
  unfoldable pub drain : DirtySet K → DirtySet K × DirtySet K
  drain d = ([], d)

  unfoldable pub merge : DirtySet K → DirtySet K → DirtySet K
  unfolding load store
  merge d [] = d
  merge d ((k, op) ∷ old) = merge (elim (load k d) [ none ↦ store k op d | some _ ↦ d ]) old

  unfoldable pub len : DirtySet K → ℕ
  len d = length d

  pub merge-Distinct : (old d : DirtySet K) → Distinct d → Distinct (merge d old)
  unfolding merge
  merge-Distinct [] d h = h
  merge-Distinct ((k, op) ∷ old) d h =
      merge-Distinct old (elim (load k d) [ none ↦ store k op d | some _ ↦ d ]) (kept (load k d))
    where
      kept : (o : Option DirtyOp) → Distinct (elim o [ none ↦ store k op d | some _ ↦ d ])
      kept none = store-Distinct k op d h
      kept (some _) = h

  -- A key of the old snapshot comes back only if it was not marked since.
  pub load-merge :
      (d old : DirtySet K) (k : K)
      → Distinct old
      → load k (merge d old) ≡ newer (load k d) (load k old)
  unfolding merge load
  load-merge d [] k h = ground arith
  load-merge d ((j, op) ∷ old) k h =
      ground (
        arith,
        load-merge d old k h.1,
        load-merge (store j op d) old k h.1,
        load-store j k op d,
        h.0,
      )
