-- ===== src/Node/Latency/Slots.antt =====
-- internal/node/latency.go: how often a key occurs in one partition of the table.
use resin.Prelude.{
  ℕ, zero, suc, ◌+◌, ◌≤◌, ◌<◌, Bool, true, Option, none, some, List, [], ◌∷◌, ◌++◌, ◌==◌, set,
  length, nat_key, ◌≡◌, refl, arith, indicator,
}
use resin.Prelude.Int.{ℤ}
use resin.Node.Latency.{
  DomainLatencyStats, LatencySlot, has_key, read_slots, pop_authority, pop_regular,
}

unfoldable pub count_key : ℕ → List LatencySlot → ℕ
count_key k [] = 0
count_key k (s ∷ slots) = indicator (has_key k s) + count_key k slots

-- 1 for the key that is popped, where it is found
abbrev pub hit : Bool → Option DomainLatencyStats → ℕ
hit same none = 0
hit same (some stats) = indicator same

-- Reading and both ways of popping find the same statistics.
pub pop_authority-read_slots :
    (key : ℕ) (now : ℤ) (slots : List LatencySlot)
    → (pop_authority key slots).0 ≡ (read_slots key now slots).0
unfolding pop_authority read_slots
pop_authority-read_slots key now [] = refl
pop_authority-read_slots key now (s ∷ slots) =
    ground (arith, pop_authority-read_slots key now slots)

pub pop_regular-read_slots :
    (key : ℕ) (now : ℤ) (slots : List LatencySlot)
    → (pop_regular key slots).0 ≡ (read_slots key now slots).0
unfolding pop_regular read_slots
pop_regular-read_slots key now [] = refl
pop_regular-read_slots key now (s ∷ slots) = ground (arith, pop_regular-read_slots key now slots)

pub count_key-pop_authority :
    (k key : ℕ) (slots : List LatencySlot)
    → count_key k (pop_authority key slots).1 + hit (key == k) (pop_authority key slots).0
      ≡ count_key k slots
unfolding pop_authority count_key nat_key
count_key-pop_authority k key [] = refl
count_key-pop_authority k key (s ∷ slots) = ground (arith, count_key-pop_authority k key slots)

pub count_key-pop_regular :
    (k key : ℕ) (slots : List LatencySlot)
    → count_key k (pop_regular key slots).1 + hit (key == k) (pop_regular key slots).0
      ≡ count_key k slots
unfolding pop_regular count_key nat_key
count_key-pop_regular k key [] = refl
count_key-pop_regular k key (s ∷ slots) = ground (arith, count_key-pop_regular k key slots)

-- A key that is not found does not occur.
pub count_key-none :
    (key : ℕ) (now : ℤ) (slots : List LatencySlot)
    → (read_slots key now slots).0 ≡ none
    → count_key key slots ≡ 0
unfolding read_slots count_key
count_key-none key now [] e = refl
count_key-none key now (s ∷ slots) e = ground (arith, count_key-none key now slots, e)

pub read_slots-none :
    (key : ℕ) (now : ℤ) (slots : List LatencySlot)
    → count_key key slots ≡ 0
    → (read_slots key now slots).0 ≡ none
unfolding read_slots count_key
read_slots-none key now [] e = refl
read_slots-none key now (s ∷ slots) e = ground (arith, read_slots-none key now slots, e)

pub length-pop_regular :
    (key : ℕ) (slots : List LatencySlot) → length (pop_regular key slots).1 ≡ length slots
unfolding pop_regular
length-pop_regular key [] = refl
length-pop_regular key (s ∷ slots) = ground (arith, length-pop_regular key slots)

pub count_key-append :
    (k : ℕ) (a b : List LatencySlot) → count_key k (a ++ b) ≡ count_key k a + count_key k b
unfolding count_key
count_key-append k [] b = omega arith
count_key-append k (s ∷ a) b = ground (arith, count_key-append k a b)

-- The slot that is overwritten no longer counts.
pub count_key-set :
    (k : ℕ) (slots : List LatencySlot) (i : ℕ) (s : LatencySlot)
    → count_key k (set slots i s) ≤ count_key k slots + indicator (has_key k s)
unfolding count_key
count_key-set k [] i s = omega arith
count_key-set k (x ∷ slots) zero s = ground arith
count_key-set k (x ∷ slots) (suc i) s = ground (arith, count_key-set k slots i s)

-- A key that occurred nowhere is read where it was written.
pub read_slots-set :
    (key : ℕ) (now : ℤ) (slots : List LatencySlot) (i : ℕ) (s : LatencySlot)
    → count_key key slots ≡ 0
    → has_key key s ≡ true
    → i < length slots
    → (read_slots key now (set slots i s)).0 ≡ some s.stats
unfolding read_slots count_key
read_slots-set key now [] i s z h b = ground arith
read_slots-set key now (x ∷ slots) zero s z h b = rw (h, read_slots)
read_slots-set key now (x ∷ slots) (suc i) s z h b =
    ground (arith, read_slots-set key now slots i s)

pub read_slots-append :
    (key : ℕ) (now : ℤ) (slots : List LatencySlot) (s : LatencySlot)
    → count_key key slots ≡ 0
    → has_key key s ≡ true
    → (read_slots key now (slots ++ s ∷ [])).0 ≡ some s.stats
unfolding read_slots count_key
read_slots-append key now [] s z h = rw (h, read_slots)
read_slots-append key now (x ∷ slots) s z h = ground (arith, read_slots-append key now slots s)
