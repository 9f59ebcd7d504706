-- ===== src/Balance.antt =====
-- Choosing an instance by weight: pkg/algorithm/search/search.go, pkg/algorithm/rand/selector.go
-- and the sets of instances of pkg/model/cluster.go, with the weighted random load balancer of
-- plugin/loadbalancer/weightedrandom/wr.go, and the hashing load balancers of plugin/loadbalancer.
pub mod Search
pub mod Cluster
pub mod Sets
pub mod Counts
pub mod Weighted
pub mod Ring
pub mod Hashed
mod Tests
