-- ===== src/Outbound/Build.antt =====
-- internal/outbound/manager.go: what `EnsureNodeOutbound` does to a live entry. No other goroutine
-- replaces the entry or sets its outbound meanwhile.
use Prim.Native.String.{◌++◌}
use resin.Prelude.{ℕ, String, none, some, ◌⊎◌, inl, inr}
use resin.Node.Entry.{NodeEntry}

-- From the raw options, an outbound instance or the text of the error, a panic's included.
abbrev pub OutboundBuilder : Type 0
OutboundBuilder = String → ℕ ⊎ String

unfoldable pub with_outbound : OutboundBuilder → NodeEntry → NodeEntry
with_outbound build e = elim e.outbound [
  | some _ ↦ e
  | none ↦ elim (build e.raw_options) [
    | inl ob ↦ record e { outbound = some ob }
    | inr err ↦ record e { last_error = "outbound build: " ++ err }
  ]
]
