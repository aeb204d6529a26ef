-- ===== src/Folder/Acknowledgements.antt =====
-- `write_acknowledgements`, `list_acknowledgements`, `list_pack_ids` and `delete_pack_objects` of
-- the folder (src/v2_remote.rs).
use rollforward.Prelude.{
  String, Bool, true, List, [], ◌∷◌, ◌++◌, map, list_eq, nat_eq, list_ord, nat_ord, filter,
  contains, last?, unwrap_or,
}
use rollforward.Errors.{Result, ok, err, SyncError, traverse}
use rollforward.Types.{ResourceKey, ResourceAck, encoded, key_eq}
use rollforward.Runtime.Action.{Call}
use rollforward.Folder.{
  FilePath, Files, Formats, for_each, with_json, acknowledgements_dir, packs_dir, indexes_dir,
  object_name, read_file, serde_result, ◌>>=◌,
}
use rollforward.Folder.Scan.{files_under}
use rollforward.Folder.Compact.{replace_file, remove_file}

-- `wanted.is_empty() || wanted.contains(..)`.
unfoldable pub wanted : List ResourceKey → ResourceAck → Bool
wanted [] ack = true
wanted (key ∷ keys) ack = contains (key ∷ keys) ack.resource

module _ (f : Formats) where
  -- One file for a client and a resource, which a later acknowledgement replaces.
  unfoldable pub ack_path : ResourceAck → FilePath
  ack_path ack =
      acknowledgements_dir ++ (object_name f (ack.client_id ++ (0 ∷ encoded ack.resource)) ∷ [])

  write_acknowledgement : ResourceAck → Call Files Unit
  unfolding ack_path replace_file
  write_acknowledgement ack = with_json (f.ack_json ack) (replace_file (ack_path ack))

  unfoldable pub write_acknowledgements : List ResourceAck → Call Files Unit
  unfolding write_acknowledgement
  write_acknowledgements acks = for_each write_acknowledgement acks

  read_acknowledgement : Files → FilePath → Result ResourceAck SyncError
  read_acknowledgement files path = elim (read_file f files path) [
    | err e ↦ err e
    | ok bytes ↦ serde_result f (f.ack_of bytes)
  ]

  unfoldable pub list_acknowledgements :
      List ResourceKey → Files → Result (List ResourceAck) SyncError
  unfolding read_acknowledgement read_file serde_result wanted files_under traverse
  list_acknowledgements resources files =
      elim (traverse (read_acknowledgement files) (files_under acknowledgements_dir files)) [
        | err e ↦ err e
        | ok acks ↦ ok (filter (wanted resources) acks)
      ]

unfoldable pub list_pack_ids : Files → List String
unfolding files_under
list_pack_ids files = map (λ path. unwrap_or [] (last? path)) (files_under packs_dir files)

-- A file that is not there is passed over.
unfoldable pub delete_pack_objects : List String → Call Files Unit
unfolding remove_file
delete_pack_objects ids =
    for_each
      (λ id. remove_file (packs_dir ++ (id ∷ [])) >>= (λ _. remove_file (indexes_dir ++ (id ∷ []))))
      ids
