-- ===== src/State/Writes.antt =====
-- internal/state/engine.go and repo_cache.go: a snapshot of dirty keys becomes rows to write and
-- keys to delete. A table of the database is a map; an upsert replaces the row of its key.
use resin.Prelude.{
  Bool, true, false, ◌||◌, Option, none, some, List, [], ◌∷◌, Key, ◌==◌, if◌then◌else◌, ◌≡◌, refl,
  arith, Option-cases, inl, inr,
}
use resin.Map.{Map, load, store, remove, Distinct}
use resin.Map.Laws.{load-store, load-remove, store-Distinct, remove-Distinct}
use resin.State.Dirty.{DirtyOp, op_upsert, op_delete, DirtySet}

module _ {K V : Type 0} ⦃key : Key K⦄ (key_of : V → K) where
  -- one key of the loop
  unfoldable pub classify_key : K → DirtyOp → Option V → List V × List K → List V × List K
  classify_key k op_delete value (upserts, deletes) = (upserts, k ∷ deletes)
  classify_key k op_upsert none (upserts, deletes) = (upserts, k ∷ deletes)
  classify_key k op_upsert (some v) (upserts, deletes) = (v ∷ upserts, deletes)

  unfoldable pub classify_dirty_set : DirtySet K → (K → Option V) → List V × List K
  unfolding classify_key
  classify_dirty_set [] reader = ([], [])
  classify_dirty_set ((k, op) ∷ drained) reader =
      classify_key k op (reader k) (classify_dirty_set drained reader)

  unfoldable pub upsert_rows : List V → Map K V → Map K V
  unfolding store
  upsert_rows [] table = table
  upsert_rows (v ∷ rows) table = upsert_rows rows (store (key_of v) v table)

  unfoldable pub delete_rows : List K → Map K V → Map K V
  unfolding remove
  delete_rows [] table = table
  delete_rows (k ∷ keys) table = delete_rows keys (remove k table)

  has_key : K → List K → Bool
  has_key k [] = false
  has_key k (j ∷ keys) = j == k || has_key k keys

  -- the last row of a key
  last_row : K → List V → Option V
  last_row k [] = none
  last_row k (v ∷ rows) = elim (last_row k rows) [
    | some w ↦ some w
    | none ↦ if key_of v == k then some v else none
  ]

  load-upsert_rows :
      (k : K) (rows : List V) (table : Map K V)
      → load k (upsert_rows rows table)
        ≡ elim (last_row k rows) [ none ↦ load k table | some v ↦ some v ]
  unfolding upsert_rows last_row
  load-upsert_rows k [] table = refl
  load-upsert_rows k (v ∷ rows) table =
      ground
        (arith, load-upsert_rows k rows (store (key_of v) v table), load-store (key_of v) k v table)

  upsert_rows-Distinct :
      (rows : List V) (table : Map K V) → Distinct table → Distinct (upsert_rows rows table)
  unfolding upsert_rows
  upsert_rows-Distinct [] table d = d
  upsert_rows-Distinct (v ∷ rows) table d =
      upsert_rows-Distinct rows (store (key_of v) v table) (store-Distinct (key_of v) v table d)

  load-delete_rows :
      (k : K) (keys : List K) (table : Map K V)
      → Distinct table
      → load k (delete_rows keys table) ≡ (if has_key k keys then none else load k table)
  unfolding delete_rows has_key
  load-delete_rows k [] table d = refl
  load-delete_rows k (j ∷ keys) table d = ground (
    arith,
    load-delete_rows k keys (remove j table) (remove-Distinct j table d),
    load-remove j k table d,
  )

  delete_rows-Distinct :
      (keys : List K) (table : Map K V) → Distinct table → Distinct (delete_rows keys table)
  unfolding delete_rows
  delete_rows-Distinct [] table d = d
  delete_rows-Distinct (k ∷ keys) table d =
      delete_rows-Distinct keys (remove k table) (remove-Distinct k table d)

  -- what the table has of a key after the flush of a mark
  abbrev pub flushed : Option DirtyOp → Option V → Option V → Option V
  flushed none value row = row
  flushed (some op_delete) value row = none
  flushed (some op_upsert) value row = value

  module _ (reader : K → Option V)
      (keyed : (k : K) (v : V) → reader k ≡ some v → key_of v ≡ k) where
    abbrev is_gone : Option DirtyOp → Option V → Bool
    is_gone none value = false
    is_gone (some op_delete) value = true
    is_gone (some op_upsert) none = true
    is_gone (some op_upsert) (some v) = false

    has_key-classify :
        (k : K) (drained : DirtySet K)
        → Distinct drained
        → has_key k (classify_dirty_set drained reader).1 ≡ is_gone (load k drained) (reader k)
    unfolding classify_dirty_set has_key load
    has_key-classify k [] d = refl
    has_key-classify k ((j, op_delete) ∷ drained) d =
        ground (arith, has_key-classify k drained d.1, d.0)
    has_key-classify k ((j, op_upsert) ∷ drained) d =
        ground (arith, has_key-classify k drained d.1, d.0)

    last_row-classify :
        (k : K) (drained : DirtySet K)
        → Distinct drained
        → last_row k (classify_dirty_set drained reader).0
          ≡ flushed (load k drained) (reader k) none
    unfolding classify_dirty_set last_row load
    last_row-classify k [] d = refl
    last_row-classify k ((j, op_delete) ∷ drained) d =
        ground (arith, last_row-classify k drained d.1, d.0)
    last_row-classify k ((j, op_upsert) ∷ drained) d = elim (Option-cases (reader j)) [
      | inl e ↦ ground (arith, last_row-classify k drained d.1, d.0, e)
      | inr (v, e) ↦ ground (arith, last_row-classify k drained d.1, d.0, e, keyed j v e)
    ]

    -- The table after the flush of a snapshot.
    pub load-flush :
        (drained : DirtySet K) (table : Map K V)
        → Distinct drained
        → Distinct table
        → let (upserts, deletes) = classify_dirty_set drained reader in
          let table' = delete_rows deletes (upsert_rows upserts table) in
          Distinct table'
          × ((k : K) → load k table' ≡ flushed (load k drained) (reader k) (load k table))
    load-flush drained table d t =
        let (upserts, deletes) = classify_dirty_set drained reader in
        let t' = upsert_rows-Distinct upserts table t in
        (
          delete_rows-Distinct deletes (upsert_rows upserts table) t',
          λ k. ground (
            arith,
            load-delete_rows k deletes (upsert_rows upserts table) t',
            load-upsert_rows k upserts table,
            has_key-classify k drained d,
            last_row-classify k drained d,
          ),
        )
