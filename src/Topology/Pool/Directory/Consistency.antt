-- ===== src/Topology/Pool/Directory/Consistency.antt =====
-- internal/topology/pool.go: the two directories of platforms agree.
use resin.Prelude.{
  ℕ, String, true, false, not, ◌&&◌, Option, none, some, ◌==◌, if◌then◌else◌, string_key, nat_key,
  ◌≡◌, ◌≢◌, refl, arith, ◌⊎◌, sym, ◌∙◌,
}
use resin.Map.{Map, load, store, remove, Distinct}
use resin.Map.Laws.{load-store, load-remove, store-Distinct, remove-Distinct}
use resin.Topology.Pool.Directory.{points_at, drop_name, put_name}

abbrev pub load_at : Option String → Map String ℕ → Option ℕ
load_at none ids = none
load_at (some id) ids = load id ids

-- The directories `ids` and `names` agree on objects with the IDs and names `id_of` and `name_of`:
-- an ID leads to its object, a name leads to a registered object of that name, and each registered
-- object with a name is found by it.
pub record Agree (id_of name_of : ℕ → Option String) (ids names : Map String ℕ) : Type 0 where
  pub ids_distinct : Distinct ids
  pub names_distinct : Distinct names
  pub unnamed : load "" names ≡ none
  pub by_id : (id : String) (r : ℕ) → load id ids ≡ some r → id_of r ≡ some id
  pub by_name :
      (name : String) (r : ℕ)
      → load name names ≡ some r
      → (name_of r ≡ some name) × (load_at (id_of r) ids ≡ some r)
  pub named :
      (id name : String) (r : ℕ)
      → load id ids ≡ some r
      → name_of r ≡ some name
      → name ≢ ""
      → load name names ≡ some r

load_at-store :
    (o : Option String) (id : String) (r : ℕ) (ids : Map String ℕ)
    → load_at o (store id r ids)
      ≡ elim o [ none ↦ none | some q ↦ if id == q then some r else load q ids ]
load_at-store none id r ids = refl
load_at-store (some q) id r ids = load-store id q r ids

load_at-remove :
    (o : Option String) (id : String) (ids : Map String ℕ)
    → Distinct ids
    → load_at o (remove id ids)
      ≡ elim o [ none ↦ none | some q ↦ if id == q then none else load q ids ]
load_at-remove none id ids d = refl
load_at-remove (some q) id ids d = load-remove id q ids d

load-put_name :
    (name q : String) (r : ℕ) (names : Map String ℕ)
    → load q (put_name names name r)
      ≡ (if name == "" then load q names else if name == q then some r else load q names)
unfolding put_name
load-put_name name q r names = ground (arith, load-store name q r names)

put_name-Distinct :
    (name : String) (r : ℕ) (names : Map String ℕ)
    → Distinct names
    → Distinct (put_name names name r)
unfolding put_name
put_name-Distinct name r names d = ground (arith, store-Distinct name r names d)

load-drop_name :
    (name q : String) (r : ℕ) (names : Map String ℕ)
    → Distinct names
    → load q (drop_name names name r)
      ≡ (if not (name == "") && points_at names name r && name == q then none else load q names)
unfolding drop_name points_at
load-drop_name name q r names d = ground (arith, load-remove name q names d)

drop_name-Distinct :
    (name : String) (r : ℕ) (names : Map String ℕ)
    → Distinct names
    → Distinct (drop_name names name r)
unfolding drop_name
drop_name-Distinct name r names d = ground (arith, remove-Distinct name names d)

module _ (id_of name_of : ℕ → Option String) (ids names : Map String ℕ)
    (c : Agree id_of name_of ids names) where
  module _ (id name : String) (r : ℕ) (at_id : id_of r ≡ some id)
      (at_name : name_of r ≡ some name) where
    register-by_name :
        (q : String) (s : ℕ)
        → load id ids ≡ none
        → load q (put_name names name r) ≡ some s
        → (name_of s ≡ some q) × (load_at (id_of s) (store id r ids) ≡ some s)
    register-by_name q s new h =
        ground
          (arith, load-put_name name q r names, load_at-store (id_of s) id r ids, c.by_name q s)

    pub register-Agree :
        load id ids ≡ none
        → load name names ≡ none
        → Agree id_of name_of (store id r ids) (put_name names name r)
    register-Agree new fresh = record {
      ids_distinct = store-Distinct id r ids c.ids_distinct;
      names_distinct = put_name-Distinct name r names c.names_distinct;
      unnamed = ground (arith, load-put_name name "" r names, c.unnamed);
      by_id = λ q s h. ground (arith, load-store id q r ids, c.by_id q s);
      by_name = λ q s h. register-by_name q s new h;
      named = λ q n s h m e. ground (
        arith,
        load-store id q r ids,
        load-put_name name n r names,
        c.named q n s,
        c.by_name name s,
      );
    }

    pub unregister-Agree :
        load id ids ≡ some r → Agree id_of name_of (remove id ids) (drop_name names name r)
    unfolding points_at
    unregister-Agree at = record {
      ids_distinct = remove-Distinct id ids c.ids_distinct;
      names_distinct = drop_name-Distinct name r names c.names_distinct;
      unnamed = ground (arith, load-drop_name name "" r names c.names_distinct, c.unnamed);
      by_id = λ q s h. ground (arith, load-remove id q ids c.ids_distinct, c.by_id q s);
      by_name = λ q s h. ground (
        arith,
        load-drop_name name q r names c.names_distinct,
        load_at-remove (id_of s) id ids c.ids_distinct,
        c.by_name q s,
        c.named id name r,
        c.unnamed,
      );
      named = λ q n s h m e. ground (
        arith,
        load-remove id q ids c.ids_distinct,
        load-drop_name name n r names c.names_distinct,
        c.named q n s,
        c.by_id q s,
      );
    }

  -- the object at `r` takes the place of the one at `k`
  module _ (id old name : String) (k r : ℕ) (at : load id ids ≡ some k) (at_id : id_of r ≡ some id)
      (at_name : name_of r ≡ some name) (old_name : name_of k ≡ some old) where
    pub swap-Agree :
        (name == "" ≡ true) ⊎ (load name names ≡ none) ⊎ (load name names ≡ some k)
        → Agree id_of name_of (store id r ids) (put_name (drop_name names old k) name r)
    unfolding points_at
    swap-Agree free = record {
      ids_distinct = store-Distinct id r ids c.ids_distinct;
      names_distinct =
          put_name-Distinct name r (drop_name names old k)
            (drop_name-Distinct old k names c.names_distinct);
      unnamed = ground (
        arith,
        load-put_name name "" r (drop_name names old k),
        load-drop_name old "" k names c.names_distinct,
        c.unnamed,
      );
      by_id = λ q s h. ground (arith, load-store id q r ids, c.by_id q s);
      by_name = λ q s h. ground (
        arith,
        load-put_name name q r (drop_name names old k),
        load-drop_name old q k names c.names_distinct,
        load_at-store (id_of s) id r ids,
        c.by_name q s,
        c.named id old k,
        c.unnamed,
      );
      named = λ q n s h m e. ground (
        arith,
        load-store id q r ids,
        load-put_name name n r (drop_name names old k),
        load-drop_name old n k names c.names_distinct,
        c.named q n s,
        c.by_id q s,
        c.by_id id k,
      );
    }

pub Agree-ext :
    (id_of name_of id_of' name_of' : ℕ → Option String) (ids names : Map String ℕ)
    → ((r : ℕ) → id_of' r ≡ id_of r)
    → ((r : ℕ) → name_of' r ≡ name_of r)
    → Agree id_of name_of ids names
    → Agree id_of' name_of' ids names
Agree-ext id_of name_of id_of' name_of' ids names e n c = record {
  ids_distinct = c.ids_distinct;
  names_distinct = c.names_distinct;
  unnamed = c.unnamed;
  by_id = λ q s h. e s ∙ c.by_id q s h;
  by_name = λ q s h. rw (e s, n s) (c.by_name q s h);
  named = λ q m s h k. c.named q m s h (sym (n s) ∙ k);
}

-- An object more, at an address that was free.
pub Agree-more :
    (id_of name_of id_of' name_of' : ℕ → Option String) (ids names : Map String ℕ) (r : ℕ)
    → id_of r ≡ none
    → ((s : ℕ) → r == s ≡ false → id_of' s ≡ id_of s)
    → ((s : ℕ) → r == s ≡ false → name_of' s ≡ name_of s)
    → Agree id_of name_of ids names
    → Agree id_of' name_of' ids names
Agree-more id_of name_of id_of' name_of' ids names r free e n c = record {
  ids_distinct = c.ids_distinct;
  names_distinct = c.names_distinct;
  unnamed = c.unnamed;
  by_id = λ q s h. e s (taken s (ground (arith, c.by_id q s))) ∙ c.by_id q s h;
  by_name = λ q s h.
      let other = taken s (ground (arith, c.by_name q s)) in
      rw (e s other, n s other) (c.by_name q s h);
  named = λ q m s h k.
      let other = taken s (ground (arith, c.by_id q s)) in c.named q m s h (sym (n s other) ∙ k);
}
  where
    taken : (s : ℕ) → id_of s ≢ none → r == s ≡ false
    taken s has = ground arith
