-- ===== src/Commands/Metadata.antt =====
-- src/application/execution_metadata.rs and the context of a connection in src/authentication/mod.rs.
use proofplane.Prelude.{Bool, Option, none, some}
use proofplane.Domain.Ids.{Uuid, UserId, DateTime, AgentConnectionId, WorkspaceId}
use proofplane.Domain.Permission.Bits.{WorkspacePermissions}

pub record ExecutionMetadata : Type 0 where
  pub request_id : Option Uuid
  pub correlation_id : Option Uuid
  pub causation_id : Option Uuid

unfoldable pub background : ExecutionMetadata
background = record { request_id = none; correlation_id = none; causation_id = none }

unfoldable pub for_request : Uuid → ExecutionMetadata
for_request request_id = record {
  request_id = some request_id;
  correlation_id = none;
  causation_id = none;
}

unfoldable pub with_correlation_id : ExecutionMetadata → Uuid → ExecutionMetadata
with_correlation_id m correlation_id = record m { correlation_id = some correlation_id }

unfoldable pub with_causation_id : ExecutionMetadata → Uuid → ExecutionMetadata
with_causation_id m causation_id = record m { causation_id = some causation_id }

pub record AgentConnectionContext : Type 0 where
  pub user_id : UserId
  pub connection_id : AgentConnectionId
  pub workspace_id : WorkspaceId
  pub permissions : WorkspacePermissions

-- What an execution takes from outside: the clock of the database, a fresh UUID for a message, and
-- whether the connection or the commit fails.
pub record Environment : Type 0 where
  pub now : DateTime
  pub message_id : Uuid
  pub fails : Bool
