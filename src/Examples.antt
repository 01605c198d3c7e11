-- ===== src/Examples.antt =====
-- Runs of the models at concrete inputs.
mod JsonCodec
mod GatewayRuns
mod BackendRuns
mod Cluster
mod ClusterRuns
mod OperatorRuns
mod RoleFiles
mod RoleRuns
mod HandlerRuns
