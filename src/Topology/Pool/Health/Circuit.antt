-- ===== src/Topology/Pool/Health/Circuit.antt =====
-- internal/topology/pool.go: the circuit breaker of a node over a run of results.
use resin.Prelude.{
  ℕ, zero, suc, ◌+◌, ◌-◌, ◌<◌, Bool, true, false, not, ◌&&◌, none, some, List, [], ◌∷◌,
  if◌then◌else◌, nat_key, ◌≡◌, refl, arith, Bool-cases, inl, inr, ◌∙◌, ap, length, All, ltb,
  get_elem?,
}
use resin.Prelude.Int.{ℤ, pos, ◌+ℤ◌, wrap32, ltb_ℤ, leb_ℤ, ◌<ℤ◌, pos_part}
use resin.Map.{load}
use resin.Map.Laws.{load-store}
use resin.Node.Hash.{Hash}
use resin.Node.Entry.{NodeEntry, is_circuit_open}
use resin.Topology.Pool.{GlobalNodePool, PoolConfig, notify_all_platforms_dirty}
use resin.Topology.Pool.Health.{apply_result, put_entry, record_result}

-- The failures at the times of a list, one after the other.
abbrev pub record_failures : PoolConfig → GlobalNodePool → Hash → List ℤ → GlobalNodePool
record_failures x g h [] = g
record_failures x g h (t ∷ ts) = record_failures x (record_result x g h false t).0 h ts

-- When the circuit opens: at the failure that reaches the limit, if there is a limit; 0 is never.
abbrev pub opening : ℤ → List ℤ → ℤ
opening limit ts =
    if ltb_ℤ (pos 0) limit
    then elim (get_elem? ts (pos_part limit - 1)) [ none ↦ pos 0 | some t ↦ t ]
    else pos 0

-- 2^31
abbrev pub int32_bound : ℕ
int32_bound = 2147483648

wrap32-suc : (n : ℕ) → suc n < int32_bound → wrap32 (pos n +ℤ pos 1) ≡ pos (suc n)
unfolding wrap32 ◌+ℤ◌
wrap32-suc n small = ground arith

positive : (t : ℤ) → pos 0 <ℤ t → (m : ℕ) × (t ≡ pos (suc m))
positive (pos zero) h = absurd (omega arith)
positive (pos (suc m)) h = (m, refl)
positive (ℤ.negsuc m) h = absurd (omega arith)

module _ (x : PoolConfig) where
  pub load-put_entry :
      (g : GlobalNodePool) (h : Hash) (e : NodeEntry) (notify : Bool)
      → load h (put_entry x g h e notify).nodes ≡ some e
  unfolding put_entry notify_all_platforms_dirty
  load-put_entry g h e true = ground (arith, load-store h h e g.nodes)
  load-put_entry g h e false = ground (arith, load-store h h e g.nodes)

  pub load-record_result :
      (g : GlobalNodePool) (h : Hash) (e : NodeEntry) (success : Bool) (now : ℤ)
      → load h g.nodes ≡ some e
      → load h (record_result x g h success now).0.nodes ≡ some (apply_result x e success now).0
  unfolding record_result
  load-record_result g h e success now found =
      rw (found, record_result)
        (load-put_entry g h (apply_result x e success now).0 (apply_result x e success now).2)

  -- The entry with a number of failures and an opening time.
  abbrev counted : NodeEntry → ℕ → ℤ → NodeEntry
  counted e n since = record e { failure_count = pos n; circuit_open_since = since }

  module _ (e : NodeEntry) where
    -- the opening time after one more failure, and after a run of them
    since_next : ℕ → ℤ → ℤ → ℤ
    since_next n since now =
        if ltb_ℤ (pos 0) x.max_consecutive_failures
          && leb_ℤ x.max_consecutive_failures (pos (suc n))
          && not (is_circuit_open (counted e n since))
        then now
        else since

    since_after : ℕ → ℤ → List ℤ → ℤ
    since_after n since [] = since
    since_after n since (t ∷ ts) = since_after (suc n) (since_next n since t) ts

    apply_failure :
        (n : ℕ) (since now : ℤ)
        → suc n < int32_bound
        → (apply_result x (counted e n since) false now).0
          ≡ counted e (suc n) (since_next n since now)
    unfolding apply_result since_next
    apply_failure n since now small = rw (wrap32-suc n small) refl

    load-record_failures :
        (ts : List ℤ) (g : GlobalNodePool) (h : Hash) (n : ℕ) (since : ℤ)
        → load h g.nodes ≡ some (counted e n since)
        → n + length ts < int32_bound
        → load h (record_failures x g h ts).nodes
          ≡ some (counted e (n + length ts) (since_after n since ts))
    unfolding since_after
    load-record_failures [] g h n since found small =
        let same : n ≡ n + 0 = omega arith in found ∙ ap (λ (m : ℕ). some (counted e m since)) same
    load-record_failures (t ∷ ts) g h n since found small =
        let g' = (record_result x g h false t).0 in
        let found' =
          load-record_result g h (counted e n since) false t found
          ∙ ap some (apply_failure n since t (omega arith)) in
        let same : suc n + length ts ≡ n + suc (length ts) = omega arith in
        load-record_failures ts g' h (suc n) (since_next n since t) found' (omega arith)
        ∙ ap (λ (m : ℕ). some (counted e m (since_after (suc n) (since_next n since t) ts))) same

    -- An open circuit stays open since the same time.
    since_after-open : (ts : List ℤ) (n m : ℕ) → since_after n (pos (suc m)) ts ≡ pos (suc m)
    unfolding since_after since_next is_circuit_open
    since_after-open [] n m = refl
    since_after-open (t ∷ ts) n m =
        let same : since_next n (pos (suc m)) t ≡ pos (suc m) = ground arith in
        ap (λ (s : ℤ). since_after (suc n) s ts) same ∙ since_after-open ts (suc n) m

    since_after-opening :
        (ts : List ℤ) (n : ℕ) (limit : ℕ)
        → x.max_consecutive_failures ≡ pos limit
        → n < limit
        → All (λ t. pos 0 <ℤ t) ts
        → since_after n (pos 0) ts
          ≡ elim (get_elem? ts (limit - 1 - n)) [ none ↦ pos 0 | some t ↦ t ]
    unfolding since_after since_next is_circuit_open
    since_after-opening [] n limit is_limit below late = refl
    since_after-opening (t ∷ ts) n limit is_limit below late =
        elim (Bool-cases (ltb (suc n) limit)) [
          | inl more ↦
              let still : since_next n (pos 0) t ≡ pos 0 = ground (arith, is_limit, more) in
              let place : limit - 1 - n ≡ suc (limit - 1 - suc n) = ground (arith, more) in
              rw (still, place)
                (since_after-opening ts (suc n) limit is_limit (ground arith) late.1)
          | inr reached ↦
              let place : limit - 1 - n ≡ 0 = ground (arith, reached) in
              let (m, is_pos) = positive t late.0 in
              let now : since_next n (pos 0) t ≡ pos (suc m) =
                ground (arith, is_limit, reached, is_pos) in
              rw (now, place, is_pos) (since_after-open ts (suc n) m)
        ]

    since_after-unlimited :
        (ts : List ℤ) (n : ℕ)
        → ltb_ℤ (pos 0) x.max_consecutive_failures ≡ false
        → since_after n (pos 0) ts ≡ pos 0
    unfolding since_after since_next
    since_after-unlimited [] n off = refl
    since_after-unlimited (t ∷ ts) n off = rw off (since_after-unlimited ts (suc n) off)

    since_after_lem :
        (ts : List ℤ)
        → All (λ t. pos 0 <ℤ t) ts
        → since_after 0 (pos 0) ts ≡ opening x.max_consecutive_failures ts
    since_after_lem ts late = elim (Bool-cases (ltb_ℤ (pos 0) x.max_consecutive_failures)) [
      | inr off ↦ since_after-unlimited ts 0 off ∙ ground (arith, off)
      | inl on ↦
          let limit = pos_part x.max_consecutive_failures in
          let is_limit : x.max_consecutive_failures ≡ pos limit = ground (arith, on) in
          since_after-opening ts 0 limit is_limit (ground (arith, on)) late
          ∙ ground (arith, on, is_limit)
    ]

  -- A node with a closed circuit and no failures, after a run of failures at positive times: the
  -- failure count is their number, and the circuit is open since the failure that reached the
  -- configured limit, or closed if none did or there is no positive limit; all else in the entry is
  -- as before. A success then sets the count and the opening time to 0.
  pub record_failures_lem :
      (g : GlobalNodePool) (h : Hash) (e : NodeEntry) (ts : List ℤ) (now : ℤ)
      → load h g.nodes ≡ some e
      → e.failure_count ≡ pos 0
      → e.circuit_open_since ≡ pos 0
      → All (λ t. pos 0 <ℤ t) ts
      → length ts < int32_bound
      → let g' = record_failures x g h ts in
        (load h g'.nodes
          ≡ some (record e {
            failure_count = pos (length ts);
            circuit_open_since = opening x.max_consecutive_failures ts;
          }))
        × (load h (record_result x g' h true now).0.nodes
            ≡ some (record e { failure_count = pos 0; circuit_open_since = pos 0 }))
  unfolding apply_result
  record_failures_lem g h e ts now found none_failed shut late small =
      let clean : e ≡ counted e 0 (pos 0) =
        λ i. record e { failure_count = none_failed i; circuit_open_since = shut i } in
      let same : 0 + length ts ≡ length ts = omega arith in
      let after =
        load-record_failures e ts g h 0 (pos 0) (found ∙ ap some clean) (omega arith)
        ∙ ap (λ (n : ℕ). some (counted e n (since_after e 0 (pos 0) ts))) same
        ∙ ap (λ (s : ℤ). some (counted e (length ts) s)) (since_after_lem e ts late) in
      (after, load-record_result (record_failures x g h ts) h _ true now after)
