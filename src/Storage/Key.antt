-- ===== src/Storage/Key.antt =====
-- `ObjectKey`, with what its operations refuse. What an error carries of the file system, of JSON or of
-- a provider is left out.
use proofplane.Prelude.{
  ℕ, zero, suc, Bool, not, ◌||◌, Option, none, some, List, [], ◌∷◌, ◌++◌, ltb, if◌then◌else◌,
  is_some, is_some_and, length, is_empty, Result, ok, err, ◌>>=◌,
}
use proofplane.Text.{Text, split, text_eq, codes}
use proofplane.Domain.Ids.{WorkspaceId}
use proofplane.Domain.User.{optional_text_eq}
use proofplane.Messaging.Types.{Uuids}
use proofplane.Text.Join.{join}
use proofplane.Validation.Five.{and_some}
use proofplane.Validation.Paths.{is_canonical_relative_path}

pub data StorageError : Type 0 where
  invalid_key not_found filesystem metadata_persistence integrity : StorageError
  stream_read : Text → Bool → StorageError
  authentication unavailable provider : StorageError

pub record ObjectKey : Type 0 where
  pub value : Text

unfoldable pub validated_path : Text → Result (List Text) StorageError
unfolding is_canonical_relative_path split
validated_path value =
    if not (is_canonical_relative_path value) then err invalid_key else ok (split b'/' value)

-- `get`, `first` and `nth` on the segments of a path.
abbrev pub segment_at : ℕ → List Text → Option Text
segment_at n [] = none
segment_at zero (s ∷ rest) = some s
segment_at (suc n) (s ∷ rest) = segment_at n rest

module _ (u : Uuids) where
  unfoldable pub new : WorkspaceId → Text → Text → Result ObjectKey StorageError
  unfolding validated_path join
  new workspace stable_prefix object_name = do
    prefix ← validated_path stable_prefix
    name ← validated_path object_name
    ok (record {
      value = join b'/' (codes "workspaces" ∷ u.uuid_text workspace ∷ (prefix ++ name));
    })

  -- The segment that holds the workspace is a UUID.
  abbrev pub names_workspace : List Text → Bool
  names_workspace segments = is_some (and_some (segment_at 1 segments) u.parse_uuid)

  abbrev pub parse_segments : Text → List Text → Result ObjectKey StorageError
  parse_segments value segments =
      if ltb (length segments) 4
        || not (is_some_and (segment_at 0 segments) (λ s. text_eq s (codes "workspaces")))
      then err invalid_key
      else if not (names_workspace segments)
      then err invalid_key
      else ok (record { value = value })

  unfoldable pub parse : Text → Result ObjectKey StorageError
  unfolding validated_path
  parse value =
      if is_empty value then err invalid_key else validated_path value >>= parse_segments value

unfoldable pub has_same_workspace : ObjectKey → ObjectKey → Bool
unfolding split
has_same_workspace a b =
    optional_text_eq (segment_at 1 (split b'/' a.value)) (segment_at 1 (split b'/' b.value))
