-- ===== src/Lib.antt =====
-- polaris-go, the Go SDK of the Polaris service governance system: its decision logic, as pure
-- functions and step relations. Paths are given from the root of the repository.
--
-- The parts and their files:
-- Match models pkg/algorithm/match/match.go: the conditions of rules. `match_string` is
-- MatchString, `match_service` is MatchService; regular expressions are the parameter `compile`.
-- RateLimit models plugin/ratelimiter. Sliding is common/ratelimit_slice_window.go; Token is the
-- type TokenBucket of reject/bucket_qps.go, with Token/Allocate for its allocations and Float
-- for its arithmetic in float64; Qps is RemoteAwareQpsBucket of the same file, `allocate` its
-- Allocate and `set_remote_quota` its SetRemoteQuota, with Qps/Init for the order of the buckets
-- of a rule and Qps/Usage for GetQuotaUsed; Leaky is unirate/bucket_leaky.go, `allocate_quota`
-- its allocateQuota.
-- Metric models pkg/metric/window.go and bucket.go, the sliced window on which error rates are
-- counted, and Metric/Many its queries over several dimensions.
-- Breaker models the circuit breaker. HalfOpen is the half-open status of
-- pkg/model/circuitbreaker.go; Trigger has the counters of
-- plugin/circuitbreaker/composite/trigger; Counters is
-- plugin/circuitbreaker/composite/counter.go, whose status changes, reports and delayed tasks
-- are the steps of `Breaker.Counters.Steps.Step`; Fallback is buildFallbackInfo of counter.go;
-- Rules is the choice of a rule in composite/rule.go.
-- Balance models the choice of an instance: Search is pkg/algorithm/search/search.go, Cluster
-- the sets of instances of pkg/model/cluster.go, with Sets and Counts for what they hold,
-- Weighted the weighted random load balancer, plugin/loadbalancer/weightedrandom/wr.go, Ring the
-- hash ring of plugin/loadbalancer/ringhash/continuum.go, which Ring/Build constructs, and
-- Hashed the load balancers of plugin/loadbalancer/ringhash and hash.
-- Route models the service routers. The types are those of
-- pkg/plugin/servicerouter/servicerouter.go and Chain is util.go there, `run_routers` the loop
-- of processServiceRouters; FilterOnly, ZeroProtect, Nearby, SetDivision, Canary and DstMeta are
-- the plugins filteronly, zeroprotect, nearbybase, setdivision, canary and dstmeta of
-- plugin/servicerouter, each with a `get_filtered_instances` (that of Nearby in Nearby/Filter),
-- and RuleBase is rulebase: Sources has matchSource, Destinations matchDstMetadata, Subsets
-- selectCluster and Filter the loops and the router, on the rules of Traffic.
-- Balance/Cluster/Metadata has what they do to clusters; Pairs and Added beside it say what a
-- cluster accepts by the pairs that were added, Composed reads its composed key, and Cached
-- keeps the values of clusters by that key and the location; the routers use the getters of
-- Values, which build anew what is not in use.
-- Quota models pkg/flow/quota: Rules has lookupRules and FormatLabelToStr of assist.go, Windows,
-- Windows/Store and Updates the windows of window.go, what a service does with them and the
-- update of rules, and Allocate the loops of GetQuota.
-- Base has shared names, tests and lemmas, with the machine integers in Base/Int and Go strings
-- as lists of bytes in Base/Text.
--
-- How the parts interact: the error rate counter of Breaker/Trigger counts in a window of
-- Metric, and the counters of Breaker/Counters judge a call by Match; a token bucket counts what
-- it passed in a window of RateLimit/Sliding. A router of Route narrows a cluster of
-- Balance/Cluster by adding metadata or a location to a copy of it, and looks at the sets of the
-- value that this stands for; a load balancer chooses from the set of the cluster that the chain
-- ends with. A window of Quota takes its tokens from a bucket of a rate limiter plugin, which is
-- a parameter.
--
-- Numbers: int64 counts of tokens are integers that wrap at 64 bits (`add64`, `sub64`); uint32
-- and int64 counters are numbers below 2^32 and 2^64; times are milliseconds since the epoch, or
-- nanoseconds where a comment says so, and never negative. A method under a mutex, and a single
-- atomic operation, is one function from the state before to the state after. Loops are over
-- lists, but for the binary search of Balance/Search, which takes fuel: one round more than
-- there are values is enough, since each round drops a value.
--
-- Not modelled: networking, files, timers, plugin registration and configuration; the flows that
-- chain the plugins; the local registry; the Maglev load balancer; the synchronisation with the
-- limit server. The executor of the circuit breaker is the order of the steps, which the
-- theorems leave open. float64 is a parameter of the error rate and of the routers
-- (RateLimit/Float computes that of the token bucket), and so are the hash function and the
-- limit of points of the hash ring.
pub mod Base
pub mod RateLimit
pub mod Match
pub mod Breaker
pub mod Balance
pub mod Route
pub mod Quota
pub mod Metric
