-- ===== src/Lib.antt =====
-- Resin is a proxy gateway: it spreads client requests over a pool of outbound nodes. This library
-- models the core of the gateway: the pool of nodes with the health of each, the platforms' views of
-- it, the choice of a node for a request, the queue of the probes, and the flush of what changed to
-- the database.
--
-- The parts and how they work together. A platform (internal/platform) is a named selection of the
-- pool's nodes, kept in a routable view. The router (internal/routing) resolves the platform of a
-- request. A request that names no account gets the better of two random nodes of the view. A
-- request that names an account gets the node of the account's lease: a live lease is kept (a hit),
-- or moved to another node with the same egress IP (a rotation), or replaced by a new one. Load
-- counters say how many leases an egress IP carries, and a window says which accounts an IP has
-- lately been exposed to, against a quota. The pool (internal/topology) counts which subscriptions
-- hold a node, opens the circuit of a failing one, and tells every platform of a change, so that the
-- views follow. The cleaner takes dead nodes away from their subscriptions. A change also marks rows
-- as dirty (internal/state), and a flush writes the marked rows.
--
-- Which file models what. `Record.field` names here follow the Go names in snake case.
--   Prelude, Map, Netip    shared helpers; Go maps and `xsync.Map.Compute`; `netip.Addr`
--   Node.Hash, .Entry      internal/node/hash.go, entry.go
--   Node.Latency           internal/node/latency.go, the bounded latency table
--   Platform, .View        internal/platform/platform.go, routableview.go; Platform.Access is the
--                          interface `ReadOnlyView` that the router uses
--   Platform.Evaluation    internal/platform/platform.go: which nodes a platform routes to, and
--                          how its view follows the pool
--   Subscription           internal/subscription/subscription.go
--   Outbound               internal/outbound/manager.go
--   Topology.Pool          internal/topology/pool.go: the nodes, their subscriptions, notifications;
--     .Directory           the platforms by ID and by name
--     .Health              the circuit breaker, latency samples, egress IP and region
--     .Lookup              the display tag of a node and its enablement
--     .Soundness           the runs of all these operations and the invariant that they keep
--   Topology.Cleanup       internal/topology/subscription_cleanup.go, ephemeral_cleaner.go
--   Topology.Subscriptions internal/topology/subscription_manager.go
--   State                  internal/state/dirtyset.go, engine.go, repo_cache.go (`FlushTx`), and
--                          the rows of internal/model/models.go
--   Probe.Queue, .Tasks    internal/probe/manager.go: the queue of the probes, the states of the
--                          tasks and the workers
--   Probe.Attempts, .Trace internal/probe/manager.go, trace.go: the scans, and what a probe reports
--                          to the pool
--   Routing.Window         internal/routing/ip_window.go, `IPAccountWindow`
--   Routing.Lease, .Load   internal/routing/lease.go, `LeaseTable` and `IPLoadStats`
--   Routing.Evaluation     internal/routing/latency_eval.go
--   Routing.Random         internal/routing/random.go
--   Routing.Selection      internal/routing/router.go: live picks and the rotation on one IP
--   Routing.Quota          internal/routing/router.go: `selectRouteForLease`, `fallbackQuotaRoute`
--   Routing.Sticky         internal/routing/router.go: `decideStickyLease`, `routeSticky`
--   Routing.Cleaner        internal/routing/lease_cleaner.go
--   Routing.Router         internal/routing/router.go: `RouteRequest` and the lease administration
--   Tests                  concrete states and the theorems at them
-- Child modules hold the theorems on their parent's definitions.
--
-- How the state is modelled. A mutex, or the `Compute` of one key, makes a method one step, so a
-- concurrent run is a sequence of steps. A request is one step of the run: the function that `Compute`
-- runs holds the lock of the account, and the counters and the window that it shares with other
-- accounts are changed within it. The methods of the window are also run in any interleaving of
-- their own, in Routing.Window.Schedule. Maps are association lists; the order of an association list is
-- the order of one visit. Times are `int64` nanoseconds. Random numbers are given to a request as a
-- function of the pick, so a theorem holds for all of them. Loops over lists are structural; the
-- loops of two live picks, three retries and eight quota picks count down from the source's
-- constants, and what follows them is modelled too, so no fuel is ever short.
--
-- A platform object is an address in a store, since the two directories share it. The callbacks of the
-- pool are events that an operation returns, but for the one that builds a node's outbound, which
-- changes the entry before the platforms are told. A table of the database is an association list, and
-- a transaction that fails leaves it as it was.
--
-- Parameters: `float64` scores (`Floats`), xxh3 and the decay formula of the latency average
-- (`Formulas`), regular expressions, ExtractDomain, the comparison of authorities, the normal form of
-- a region, the GeoIP lookup, the sing-box builder of an outbound (`OutboundBuilder`), and the calls of
-- Go's library that read a trace (`TextCalls`).
--
-- The runs of the pool (Topology.Pool.Soundness.Steps) suppose that a platform is created under a name
-- that no registered one has, which RegisterPlatform leaves to the unique names of the database. They
-- hold a list of late nodes: cmd/resin/main.go calls EnsureNodeOutbound for the nodes of a
-- subscription that is enabled again, and with a closed circuit no platform is told. The next rebuild
-- of all platforms empties the list.
--
-- Not modelled: interleavings inside the decisions on two accounts other than those of the window;
-- interleavings inside one operation of the pool, so that creating or replacing a platform is one
-- step with the rebuild of its view; interleavings inside a call on the state of a probe task;
-- the conversions of UpsertLease and ReadLease between a lease and its row of text fields; the wrap of
-- the 64-bit totals and counters, which the model keeps as unbounded numbers;
-- parsing and refreshing of subscriptions, the network side of proxies, outbounds and probes, the
-- HTTP API, the SQL of the settings, metrics, and the goroutines and timers of the cleaners.
pub mod Prelude
pub mod Map
pub mod Netip
pub mod Node
pub mod Subscription
pub mod Platform
pub mod Outbound
pub mod Topology
pub mod State
pub mod Probe
pub mod Routing
pub mod Tests
