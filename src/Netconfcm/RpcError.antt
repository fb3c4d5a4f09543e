-- ===== src/Netconfcm/RpcError.antt =====
-- internal/ems/netconfcm/rpc_error.go and the session of types.go.
use lte_element_manager.Prelude.{ℕ, String, if◌then◌else◌, ◌==◌, string_eq}
use lte_element_manager.Configuration.Change.{ConfigError}
use lte_element_manager.Configuration.Persist.{PersistError}

-- `SessionMeta`
pub record SessionMeta : Type 0 where
  pub session_id : ℕ  -- uint64
  pub username : String

-- A message is kept as its format and the arguments: the text that `fmt` makes of them is not
-- modelled. `text` is a message without
-- arguments or one that came from somewhere else.
pub data Message : Type 0 where
  unsupported_datastore : String → Message
  locked_by_this_session : String → Message
  locked_by_another_session : String → Message
  unsupported_source : String → Message
  config_error : ConfigError → Message
  persist_error : PersistError → Message
  text : String → Message

abbrev pub error_tag_in_use : String
error_tag_in_use = "in-use"

abbrev pub error_tag_invalid_value : String
error_tag_invalid_value = "invalid-value"

abbrev pub error_tag_lock_denied : String
error_tag_lock_denied = "lock-denied"

abbrev pub error_tag_operation_failed : String
error_tag_operation_failed = "operation-failed"

pub record RpcError : Type 0 where
  pub tag : String
  pub type : String
  pub app_tag : String
  pub message : Message
  pub owner_session_id : ℕ  -- uint64

-- `NewRPCError`
abbrev pub new_rpc_error : String → Message → RpcError
new_rpc_error tag message = record {
  tag = if tag == "" then error_tag_operation_failed else tag;
  type = "application";
  app_tag = "";
  message = message;
  owner_session_id = 0;
}

-- `NewLockDenied`
abbrev pub new_lock_denied : Message → ℕ → RpcError
new_lock_denied message owner = record {
  tag = error_tag_lock_denied;
  type = "protocol";
  app_tag = "";
  message = message;
  owner_session_id = owner;
}

-- `NewInUse`
abbrev pub new_in_use : Message → ℕ → RpcError
new_in_use message owner = record {
  tag = error_tag_in_use;
  type = "protocol";
  app_tag = "";
  message = message;
  owner_session_id = owner;
}
