-- ===== src/Netconfcm.antt =====
-- internal/ems/netconfcm: configuration management over NETCONF.
pub mod RpcError
pub mod Locks
pub mod Manager
