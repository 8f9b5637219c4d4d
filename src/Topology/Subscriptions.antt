-- ===== src/Topology/Subscriptions.antt =====
-- internal/topology/subscription_manager.go: the subscriptions by their IDs.
use resin.Prelude.{String, Option, string_key}
use resin.Map.{Map, load, store, remove}
use resin.Subscription.{Subscription}

abbrev pub SubscriptionManager : Type 0
SubscriptionManager = Map String Subscription

-- `Get` and `Lookup`
unfoldable pub lookup : SubscriptionManager → String → Option Subscription
unfolding load
lookup subs id = load id subs

unfoldable pub register : SubscriptionManager → Subscription → SubscriptionManager
unfolding store
register subs sub = store sub.id sub subs

unfoldable pub unregister : SubscriptionManager → String → SubscriptionManager
unfolding remove
unregister subs id = remove id subs
