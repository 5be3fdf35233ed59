-- ===== src/Domain/Ids.antt =====
-- src/domain/ids.rs, sha256_digest.rs and the instants of the crate chrono. An id wraps a UUID, which
-- is compared only, as its 128-bit number. An instant is the count of nanoseconds since the first
-- instant that chrono represents, a whole second. A digest is the list of its bytes.
use proofplane.Prelude.{ℕ, Bool, List}
use proofplane.Text.{text_eq}

abbrev pub DateTime : Type 0
DateTime = ℕ

abbrev pub Uuid : Type 0
Uuid = ℕ

abbrev pub UserId : Type 0
UserId = Uuid

abbrev pub WorkspaceId : Type 0
WorkspaceId = Uuid

abbrev pub DocumentId : Type 0
DocumentId = Uuid

abbrev pub PolicyId : Type 0
PolicyId = Uuid

abbrev pub EvidenceId : Type 0
EvidenceId = Uuid

abbrev pub ControlId : Type 0
ControlId = Uuid

abbrev pub FrameworkRequirementId : Type 0
FrameworkRequirementId = Uuid

abbrev pub EvidenceSubmissionId : Type 0
EvidenceSubmissionId = Uuid

abbrev pub AgentConnectionId : Type 0
AgentConnectionId = Uuid

abbrev pub Sha256Digest : Type 0
Sha256Digest = List ℕ

-- `==` on digests.
abbrev pub digest_eq : Sha256Digest → Sha256Digest → Bool
digest_eq a b = text_eq a b
