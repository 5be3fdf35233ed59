-- ===== src/Lib.antt =====
-- The aggregates of Proofplane (who may act in a workspace, how agents and auditors are let in, how
-- documents are uploaded and scanned, what of a request is accepted) and the way of its messages
-- from the outbox to the worker.
--
-- The program is an API, an MCP server and workers over one database. Their commands load an
-- aggregate of src/domain by its `rehydrate`, call one of its operations, and save what the
-- operation leaves. A message that follows from a change is appended to the outbox in the same
-- transaction; the dequeuer publishes it, and a worker is pushed what was published. The
-- development models the aggregates and this way of a message. An operation on `&mut self` answers
-- with the new value, and an error leaves the old one; a snapshot read from the store is a record
-- that `rehydrate` accepts or refuses. A history is a list of calls, made one after the other, as
-- the transactions of the store order them.
--
-- The files and the code:
--
-- * Prelude, with Tests, Lists, Int and Results: Boolean tests, lists, integers, and `Result` with
--   `?` as the bind of a do block.
-- * Text, with Base, Split, Trim and Join: `String` as its code points, with its bytes in UTF-8,
--   `split`, `split_once` and `trim`.
-- * Validation (src/validation/mod.rs): `Validation`, the macro `validate!` at two and three
--   bindings, `is_canonical_relative_path`.
-- * Domain.Error, Domain.Ids (src/domain/error.rs, ids.rs, sha256_digest.rs): the errors and the
--   types of identifiers, instants and digests.
-- * Domain.Fields (src/domain/validation.rs): `required_text`, `optional_text`,
--   `validate_document_filename`.
-- * Domain.Permission (src/domain/permission.rs): `WorkspacePermission`, `WorkspacePermissions`,
--   `canonical_permissions`.
-- * Domain.Workspace (src/domain/workspace.rs): `Workspace` with `create_owned`, `rehydrate`,
--   `add_member`, `remove_member`.
-- * Domain.Document (src/domain/document.rs): `Document` with `create`, the three results of a
--   scan, `finalize_uploaded` and `archive`; Machine has the arrows of the lifecycle as a
--   relation.
-- * Domain.Invitation (src/domain/workspace_invitation.rs): `WorkspaceInvitation` and all its
--   operations.
-- * Domain.AgentConnection (src/domain/agent_connection.rs): `AgentConnection` and all its
--   operations.
-- * Domain.OauthFlow (src/domain/oauth.rs): `OAuthAuthorizationFlow` and its code.
-- * Domain.DeclaredFile (src/domain/declared_upload_file.rs): `DeclaredUploadFile`. Formats holds
--   what the crates mime, http and hex do as parameters, with the laws of the codec as named
--   hypotheses; Hex is a codec that has them.
-- * Domain.Submission (src/domain/evidence_submission.rs): `CoverageWindow` and
--   `EvidenceSubmission`.
-- * Domain.AgentUpload (src/domain/agent_evidence_upload_grant.rs): `AgentEvidenceUploadGrant`.
-- * Domain.AgentPolicyUpload (src/domain/agent_policy_document_upload_grant.rs):
--   `AgentPolicyDocumentUploadGrant`.
-- * Domain.User (src/domain/user.rs): `User`.
-- * Domain.BrowserUpload (src/domain/evidence_document_upload_grant.rs,
--   policy_document_upload_grant.rs): the two grants that are redeemed once.
-- * Domain.Auditor (src/domain/auditor_access_grant.rs, auditor_access_session.rs,
--   auditor_auth_transaction.rs): `AuditorAccessGrant`, `AuditorSession` and
--   `AuditorAuthTransaction`.
-- * Domain.Catalogue (src/domain/evidence.rs, controls.rs, policy.rs): `Evidence`, `Control` and
--   `Policy`; Sorting has their sorting by key and the search for a repeated key.
-- * Domain.Batch (src/domain/batch.rs): `validate_batch` and `duplicate_ids`.
-- * Messaging (src/messaging.rs): `IntegrationMessage` with its constructors, `to_envelope` and
--   `from_envelope`. Wire has the derived (de)serializers with their keys, Serde the JSON values
--   of the crate serde_json, a parameter, and Example a codec with their laws.
-- * Outbox (src/persistence/outbox.rs): the table `outbox_messages` and its statements; Ordering
--   has `WHERE`, `ORDER BY` and `LIMIT`, Keys the primary key.
-- * Dequeuer (src/dequeuer/mod.rs): `run_once` with `publish_row`, `publish_outbox_row`,
--   `outbound_message` and `retry_delay`. World is the table, the calls made on the publisher, and
--   which calls on the database fail; a panic ends the run; History has the runs and the appended
--   messages as a list of events.
-- * Worker (src/worker.rs): `decode_worker_message`; what the crates base64 and serde_json read is
--   a parameter.
-- * Persistence (src/persistence/mod.rs, aggregates, reads/policies.rs, reads/documents.rs):
--   `in_unit_of_work`, the statements on documents, submissions, grants and policies, and the row
--   of a document. An answer of the database that is an error leaves the store as it was.
-- * Commands (src/application/commands/documents.rs, execution_metadata.rs): the commands that
--   create, scan, finalize and archive documents and complete uploads, as functions of the store.
--   Environment is what a run takes from outside.
-- * Storage (src/object_storage/mod.rs): `ObjectKey` with `new`, `parse` and `has_same_workspace`;
--   Segments has what the crate uuid documents of the text of an identifier.
-- * Handlers (src/handlers/document_scan.rs, document_finalization.rs): `handle_scan_requested`
--   and `handle_finalization_requested`. ScanOutside and FinalizationOutside are what a delivery
--   takes from outside.
--
-- In each component Types and Operations follow the code; the other files prove, and Tests runs the
-- code on concrete data. Where a function takes more arguments than can be read in a row, they are
-- a record.
--
-- Numbers: an identifier is the number of its UUID, an instant the nanoseconds since the first
-- instant that chrono represents, a `u64` a natural number, an `i64` an integer with `checked_add`
-- written out, a `u8` of bits a natural number whose range is a hypothesis or is proved. Loops are
-- recursive on a list; only the digits of a number in decimal run on fuel, and a number has fewer
-- digits than its successor counts. A retry delay is a signed number of nanoseconds in the range of
-- chrono; a product that leaves the range panics, and the factor wraps around as an `i32` does. An
-- instant past the last one of chrono is not told apart.
--
-- Not modelled: the commands on other aggregates, the queries, services, routes, the handler of
-- invitations, tokens and stores of objects, the records of the audit, the timer of the dequeuer,
-- and the texts of errors.

pub mod Prelude
pub mod Text
pub mod Validation
pub mod Domain
pub mod Messaging
pub mod Outbox
pub mod Dequeuer
pub mod Worker
pub mod Persistence
pub mod Commands
pub mod Storage
pub mod Handlers
