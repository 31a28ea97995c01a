-- ===== src/Manifest/Runs.antt =====
-- manifest: runs on concrete records and files.
use lithicdb.Common.{◌≡◌, [], ◌∷◌, ◌++◌, arith, length}
use lithicdb.Common.Endian.{little_endian}
use lithicdb.Manifest.{
  SsTableInfo, HnswSnapshotInfo, sstable_added, sstable_removed, snapshot, next_ids, ok,
  encode_payload, encode_sstable_info, append_sstable_info, encode_sstable_removed, encode_next_ids,
  encode_snapshot, append_infos, append_hnsw, encode_hnsw_snapshot, key_length, encode_record,
  decode_record,
}
use lithicdb.Manifest.Keyed.{put}
use lithicdb.Manifest.Fields.{IsInfo, IsHnsw}
use lithicdb.Manifest.RoundTrip.{IsRecord, length-encode_record, decode_record-encode_record}
use lithicdb.Manifest.State.{
  Manifest, put_table, apply_record, write_record, torn, add_sstable, opened, open_manifest,
}
use lithicdb.Manifest.Reached.{
  Reached, created, added, Fits, all_written, fresh, create-fresh, open-Reached,
}

abbrev table : SsTableInfo
table = record { id = 7; level = 1; first_key = b'a' ∷ []; last_key = b'c' ∷ b'd' ∷ [] }

abbrev vectors : HnswSnapshotInfo
vectors = record { collection = b'v' ∷ []; seq = 9; filename = b'f' ∷ [] }

table-IsInfo : IsInfo table
table-IsInfo = record {
  id_range = omega arith;
  level_range = omega arith;
  first_range = omega arith;
  last_range = omega arith;
}

vectors-IsHnsw : IsHnsw vectors
vectors-IsHnsw = record {
  collection_range = omega arith;
  seq_range = omega arith;
  filename_range = omega arith;
}

added-IsRecord : IsRecord (sstable_added table)
unfolding encode_payload encode_sstable_info append_sstable_info key_length little_endian
added-IsRecord = record { fields = table-IsInfo; size_range = omega arith }

removed-IsRecord : IsRecord (sstable_removed 7 1)
unfolding encode_payload encode_sstable_removed little_endian
removed-IsRecord = record { fields = (omega arith, omega arith); size_range = omega arith }

ids-IsRecord : IsRecord (next_ids 1 5)
unfolding encode_payload encode_next_ids little_endian
ids-IsRecord = record { fields = (omega arith, omega arith); size_range = omega arith }

full-IsRecord : IsRecord (snapshot (table ∷ []) (vectors ∷ []))
unfolding encode_payload encode_snapshot append_infos append_hnsw append_sstable_info
    encode_hnsw_snapshot key_length little_endian
full-IsRecord = record {
  fields = record {
    tables = (table-IsInfo, tt);
    hnsw = (vectors-IsHnsw, tt);
    table_count = omega arith;
    hnsw_count = omega arith;
  };
  size_range = omega arith;
}

one-IsRecord : IsRecord (snapshot (table ∷ []) [])
unfolding encode_payload encode_snapshot append_infos append_hnsw append_sstable_info key_length
    little_endian
one-IsRecord = record {
  fields = record {
    tables = (table-IsInfo, tt);
    hnsw = tt;
    table_count = omega arith;
    hnsw_count = omega arith;
  };
  size_range = omega arith;
}

decode_record-encode_record_example :
    decode_record (encode_record (snapshot (table ∷ []) (vectors ∷ [])) ++ (1 ∷ []))
    ≡ ok (
      snapshot (table ∷ []) (vectors ∷ []),
      length (encode_record (snapshot (table ∷ []) (vectors ∷ []))),
    )
decode_record-encode_record_example =
    decode_record-encode_record (snapshot (table ∷ []) (vectors ∷ [])) full-IsRecord (1 ∷ [])

table-Fits : Fits (sstable_added table) (fresh 1 5)
unfolding apply_record put_table put
table-Fits = (added-IsRecord, one-IsRecord)

abbrev two_calls : Manifest
two_calls = (add_sstable all_written table (fresh 1 5)).0

two_calls-Reached : Reached two_calls
two_calls-Reached =
    added (fresh 1 5) table (created 1 5 (fresh 1 5) (create-fresh 1 5) ids-IsRecord) table-Fits

open-Reached_example :
    open_manifest ((write_record (torn 5) (sstable_removed 7 1) two_calls).0.file)
    ≡ opened two_calls.contents
open-Reached_example =
    open-Reached two_calls (sstable_removed 7 1) 5 two_calls-Reached removed-IsRecord
      (omega (arith, length-encode_record (sstable_removed 7 1)))
