-- ===== src/Tracker/Files.antt =====
-- Files and their shard placements in internal/tracker/tracker.go.
use aldea.Prelude.{◌≡◌, inl, inr, String, some, List, arith, if◌then◌else◌, ok, Option-cases}
use aldea.Prelude.Text.{str_eq}
use aldea.Tracker.{
  Backend, Store, FileMetadata, ShardPlacement, save_file_placement, get_file_placement,
}

module _ {B R : Type 0} (be : Backend B R) where
  open be use {bucket, node_codec, file_codec, placement_codec}

  -- The two raw values that a successful save wrote.
  save_written :
      (s s' : Store B) (file : FileMetadata) (ps : List ShardPlacement)
      → save_file_placement be s file ps ≡ ok s'
      → (fr pr : R) × (file_codec.marshal file ≡ some fr)
        × (placement_codec.marshal ps ≡ some pr)
        × (bucket.put s.files file.file_id fr ≡ some s'.files)
        × (bucket.put s.placements file.file_id pr ≡ some s'.placements)
        × (s'.nodes ≡ s.nodes)
  unfolding save_file_placement
  save_written s s' file ps e = elim (Option-cases (file_codec.marshal file)) [
    | inl m ↦ absurd (ground (arith, m))
    | inr (fr, m) ↦ elim (Option-cases (bucket.put s.files file.file_id fr)) [
      | inl p ↦ absurd (ground (arith, m, p))
      | inr (b, p) ↦ elim (Option-cases (placement_codec.marshal ps)) [
        | inl m' ↦ absurd (ground (arith, m, p, m'))
        | inr (pr, m') ↦ elim (Option-cases (bucket.put s.placements file.file_id pr)) [
          | inl p' ↦ absurd (ground (arith, m, p, m', p'))
          | inr (b', p') ↦ (
            fr,
            pr,
            m,
            m',
            ground (arith, m, p, m', p'),
            ground (arith, m, p, m', p'),
            ground (arith, m, p, m', p'),
          )
        ]
      ]
    ]
  ]

  -- A file that was saved is read back as it was given, with its placements; what is read for any
  -- other file, and the table of nodes, are as before.
  pub get-save_file_placement :
      (s s' : Store B) (file : FileMetadata) (ps : List ShardPlacement) (id : String)
      → save_file_placement be s file ps ≡ ok s'
      → (get_file_placement be s' id
          ≡ (if str_eq id file.file_id then ok (file, ps) else get_file_placement be s id))
        × (s'.nodes ≡ s.nodes)
  unfolding get_file_placement
  get-save_file_placement s s' file ps id e =
      let (fr, pr, m, m', p, p', same) = save_written s s' file ps e in
      (
        ground (
          arith,
          bucket.get-put s.files s'.files file.file_id id fr p,
          bucket.get-put s.placements s'.placements file.file_id id pr p',
          file_codec.unmarshal-marshal file fr m,
          placement_codec.unmarshal-marshal ps pr m',
        ),
        same,
      )
