-- ===== src/Examples.antt =====
-- The theorems of the other modules on concrete Applications, buckets and clusters.
-- Children Samples and Reconcilers: the data. The others are named for the part that they run.
mod Samples
mod Admission
mod Names
mod Buckets
mod Linode
mod Policies
mod Limits
mod Sharers
mod Refusals
mod Markers
mod Reconcilers
mod Control
mod Loops
mod Compute
mod Records
mod Conditions
