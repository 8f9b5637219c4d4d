-- ===== src/Node/Hash.antt =====
-- internal/node/hash.go: a `Hash` is 16 bytes. It is read here as one number of 128 bits, first byte
-- highest; two hashes are equal as arrays exactly if these numbers are.
use resin.Prelude.{ℕ, ◌/◌, ◌%◌, ◌^◌, Bool, ◌==◌, nat_key}

abbrev pub Hash : Type 0
Hash = ℕ

-- node.Zero
abbrev pub zero_hash : Hash
zero_hash = 0

-- h[0]
unfoldable pub first_byte : Hash → ℕ
first_byte h = h / 2 ^ 120 % 256

unfoldable pub is_zero : Hash → Bool
is_zero h = h == zero_hash
