-- ===== src/Domain/Document/Tests.antt =====
-- One document on concrete data.
use proofplane.Prelude.{◌≡◌, refl, false, List, [], ◌∷◌, pos}
use proofplane.Text.{codes}
use proofplane.Domain.Document.History.{events, OnceAtMost, events-OnceAtMost}
use proofplane.Domain.Document.Machine.{
  scans_clean, scans_malicious, archives, finalizes, Call, Did, apply, apply-Did,
}
use proofplane.Domain.Document.Types.{
  pending_upload, uploaded, contains_virus, evidence_identity, finalization_requested, Document,
}

abbrev staged : Document
staged = record {
  identity = evidence_identity 1 2;
  workspace_id = 3;
  created_by_user_id = 4;
  filename = codes "report.pdf";
  content_type = codes "application/pdf";
  content_length = pos 12;
  object_key = codes "staging/2";
  checksum_sha256 = [];
  checksum_crc32c = [];
  upload_status = pending_upload;
  archived = false;
  created_at = 10;
}

abbrev infected : Document
infected = record staged { upload_status = contains_virus }

abbrev kept_upload : Document
kept_upload = record staged { upload_status = uploaded; object_key = codes "documents/2" }

abbrev replay : List Call
replay =
    scans_clean
    ∷ scans_clean
    ∷ finalizes (codes "documents/2")
    ∷ scans_malicious
    ∷ finalizes (codes "other")
    ∷ archives
    ∷ []

replay_test :
    events staged replay ≡ finalization_requested (evidence_identity 1 2) (codes "staging/2") ∷ []
unfolding events
replay_test = refl

apply-Did_example : Did scans_clean staged (apply staged scans_clean)
apply-Did_example = apply-Did staged scans_clean

events-OnceAtMost_example : OnceAtMost staged (events staged replay)
events-OnceAtMost_example = events-OnceAtMost staged replay
