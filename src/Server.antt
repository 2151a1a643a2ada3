-- ===== src/Server.antt =====
-- internal/server and internal/reqinfo: the handler between a client and the cluster.
pub mod Http
pub mod Negotiate
pub mod Handler
pub mod Disk
pub mod Certificate
pub mod Response
pub mod Serve
pub mod Watch
pub mod TokenFile
pub mod Kubeconfig
pub mod Tests
