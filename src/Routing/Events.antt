-- ===== src/Routing/Events.antt =====
-- internal/routing/events.go. The callback `onLeaseEvent` is called in the order of the list.
use resin.Prelude.{String}
use resin.Prelude.Int.{ℤ}
use resin.Netip.{Addr}
use resin.Node.Hash.{Hash}

pub data LeaseEventType : Type 0 where
  lease_create lease_touch lease_replace lease_remove lease_expire : LeaseEventType

pub record LeaseEvent : Type 0 where
  pub type : LeaseEventType
  pub platform_id : String
  pub account : String
  pub node_hash : Hash
  pub egress_ip : Addr
  -- 0 where the source leaves it out
  pub created_at_ns : ℤ
