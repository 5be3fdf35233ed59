-- ===== src/Storage/KeyRules.antt =====
-- The way of a key from its making to its parsing.
use proofplane.Prelude.{
  suc, ◌≤◌, ◌≡◌, refl, sym, ap, ◌∙◌, ◌↔◌, true, false, List, ◌∷◌, ◌++◌, arith, ltb, some-injective,
  length, is_empty, All, length-append, ok, ◌>>=◌, bind-ok, ok-injective,
}
use proofplane.Text.{Text, codes, text_eq_iff, split}
use proofplane.Domain.Ids.{WorkspaceId}
use proofplane.Messaging.Types.{Uuids}
use proofplane.Storage.Key.{
  new, parse, validated_path, has_same_workspace, ObjectKey, parse_segments,
}
use proofplane.Storage.Segments.{
  UuidTextLaws, validated_path-ok, uuid_text-IsSegment, segments-append, segments-IsFree,
  validated_path-canonical,
}
use proofplane.Text.Join.{join, split-join}
use proofplane.Validation.Canonical.{IsSegment, is_canonical_relative_path_iff}
use proofplane.Validation.Paths.{is_canonical_relative_path}

canonical_nonempty :
    (value : Text) → is_canonical_relative_path value ≡ true → is_empty value ≡ false
unfolding is_canonical_relative_path
canonical_nonempty value h = ground arith

module _ (u : Uuids) (laws : UuidTextLaws u) where
  -- The segments of a key of a workspace, below which are those of its prefix and of its name.
  abbrev pub key_segments : WorkspaceId → List Text → List Text
  key_segments workspace below = codes "workspaces" ∷ u.uuid_text workspace ∷ below

  -- What a key is that was made for a workspace.
  abbrev pub MadeFor : WorkspaceId → ObjectKey → Type 0
  MadeFor workspace key =
      (below : List Text) × (2 ≤ length below)
      × All IsSegment (key_segments workspace below)
      × (key.value ≡ join b'/' (key_segments workspace below))

  key_segments-IsSegment :
      (workspace : WorkspaceId) (below : List Text)
      → All IsSegment below
      → All IsSegment (key_segments workspace below)
  key_segments-IsSegment workspace below a =
      let named =
        uuid_text-IsSegment (u.uuid_text workspace) (laws.text_codes workspace)
          (laws.text_nonempty workspace) in
      ((refl, refl), (named, a))

  pub new-MadeFor :
      (workspace : WorkspaceId) (prefix name : Text) (key : ObjectKey)
      → new u workspace prefix name ≡ ok key
      → MadeFor workspace key
  unfolding new
  new-MadeFor workspace prefix name key h =
      let (ps, made, k) = bind-ok (validated_path prefix) _ key h in
      let (ns, named, e) = bind-ok (validated_path name) _ key k in
      let (s, rest, first, a) = validated_path-ok prefix ps made in
      let (t, more, second, b) = validated_path-ok name ns named in
      let below = (s ∷ rest) ++ (t ∷ more) in
      let same : ps ++ ns ≡ below = rw (first, second) refl in
      (
        below,
        omega (arith, length-append (s ∷ rest) (t ∷ more)),
        key_segments-IsSegment workspace below (segments-append (s ∷ rest) (t ∷ more) a b),
        sym (ap (λ x. x.value) (ok-injective _ key e))
            ∙ ap (λ x. join b'/' (key_segments workspace x)) same,
      )

  split-MadeFor :
      (workspace : WorkspaceId) (key : ObjectKey) (below : List Text)
      → All IsSegment (key_segments workspace below)
      → key.value ≡ join b'/' (key_segments workspace below)
      → split b'/' key.value ≡ key_segments workspace below
  split-MadeFor workspace key below a e =
      ap (split b'/') e
      ∙ split-join b'/' (codes "workspaces") (u.uuid_text workspace ∷ below)
          (segments-IsFree (key_segments workspace below) a)

  parse_nonempty :
      (value : Text)
      → is_empty value ≡ false
      → parse u value ≡ (validated_path value >>= parse_segments u value)
  unfolding parse
  parse_nonempty value h = rw h refl

  parse-MadeFor :
      (workspace : WorkspaceId) (key : ObjectKey)
      → MadeFor workspace key
      → parse u key.value ≡ ok key
  parse-MadeFor workspace key (below, long, a, e) =
      let canonical =
        (is_canonical_relative_path_iff key.value).1
          (codes "workspaces", u.uuid_text workspace ∷ below, a, e) in
      let enough : ltb (suc (suc (length below))) 4 ≡ false = ground arith in
      let parts =
        validated_path-canonical key.value (key_segments workspace below) canonical
          (split-MadeFor workspace key below a e) in
      parse_nonempty key.value (canonical_nonempty key.value canonical)
      ∙ ap (λ r. r >>= parse_segments u key.value) parts
      ∙ rw (enough, laws.parse_text workspace) refl

  -- If an identifier is written in hexadecimal digits and hyphens, and parsed from that, then a key
  -- that ObjectKey::new makes from any prefix and any name is parsed by ObjectKey::parse as it is.
  pub new-parse :
      (workspace : WorkspaceId) (prefix name : Text) (key : ObjectKey)
      → new u workspace prefix name ≡ ok key
      → parse u key.value ≡ ok key
  new-parse workspace prefix name key h =
      parse-MadeFor workspace key (new-MadeFor workspace prefix name key h)

  uuid_text-injective : (a b : WorkspaceId) → u.uuid_text a ≡ u.uuid_text b → a ≡ b
  uuid_text-injective a b e =
      some-injective a b (sym (laws.parse_text a) ∙ ap u.parse_uuid e ∙ laws.parse_text b)

  same_workspace-MadeFor :
      (v w : WorkspaceId) (a b : ObjectKey)
      → MadeFor v a
      → MadeFor w b
      → (has_same_workspace a b ≡ true) ↔ (v ≡ w)
  unfolding has_same_workspace
  same_workspace-MadeFor v w a b (below, _, p, e) (under, _, q, k) =
      let first = split-MadeFor v a below p e in
      let second = split-MadeFor w b under q k in
      let texts = text_eq_iff (u.uuid_text v) (u.uuid_text w) in
      rw (first, second)
        (λ h. uuid_text-injective v w (texts.0 h), λ same. texts.1 (ap u.uuid_text same))

  -- If an identifier is written in hexadecimal digits and hyphens, and parsed from that, then two
  -- keys that ObjectKey::new makes, from any prefixes and names, are of the same workspace exactly
  -- when they were made for the same workspace.
  pub has_same_workspace_iff :
      (v w : WorkspaceId) (prefix name other_prefix other_name : Text) (a b : ObjectKey)
      → new u v prefix name ≡ ok a
      → new u w other_prefix other_name ≡ ok b
      → (has_same_workspace a b ≡ true) ↔ (v ≡ w)
  has_same_workspace_iff v w prefix name other_prefix other_name a b h k =
      same_workspace-MadeFor v w a b (new-MadeFor v prefix name a h)
        (new-MadeFor w other_prefix other_name b k)
