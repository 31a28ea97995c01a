-- ===== src/Manifest/Fields.antt =====
-- manifest/encoding.go: the fields of a payload, read back.
use lithicdb.Common.{
  ℕ, ◌%◌, ◌^◌, ◌<◌, ◌≡◌, refl, ap, sym, ◌∙◌, false, List, [], ◌∷◌, ◌++◌, append_assoc, append-nil,
  arith, length, length-append, ltb,
}
use lithicdb.Common.Bytes.{Bytes, All}
use lithicdb.Common.Endian.{little_endian, length-little_endian, from_little_endian_lem}
use lithicdb.Common.Slices.{take_append, drop_append}
use lithicdb.Manifest.{
  SsTableInfo, HnswSnapshotInfo, ok, read_uint, read_bytes, key_length, append_sstable_info,
  encode_sstable_info, decode_sstable_info, min_info_size, min_hnsw_size, encode_hnsw_snapshot,
  decode_hnsw_snapshot, append_infos, append_hnsw, decode_infos, decode_hnsw_entries,
}

pub not_short : (xs ys : Bytes) (k : ℕ) → k ≡ length xs → ltb (length (xs ++ ys)) k ≡ false
not_short xs ys k h = ground (arith, length-append xs ys)

pub read_uint_lem :
    (k v : ℕ) (rest : Bytes) → v < 256 ^ k → read_uint k (little_endian k v ++ rest) ≡ ok (v, rest)
unfolding read_uint
read_uint_lem k v rest h =
    let w = sym (length-little_endian k v) in
    rw
      (
        not_short (little_endian k v) rest k w,
        take_append k (little_endian k v) rest w,
        drop_append k (little_endian k v) rest w,
        from_little_endian_lem k v h,
      )
      refl

pub read_bytes_lem : (xs rest : Bytes) → read_bytes (length xs) (xs ++ rest) ≡ ok (xs, rest)
unfolding read_bytes
read_bytes_lem xs rest =
    rw
      (
        not_short xs rest (length xs) refl,
        take_append (length xs) xs rest refl,
        drop_append (length xs) xs rest refl,
      )
      refl

-- What the fixed widths hold.
pub record IsInfo (info : SsTableInfo) : Type 0 where
  pub id_range : info.id < 2 ^ 64
  pub level_range : info.level < 2 ^ 8
  pub first_range : length info.first_key < 2 ^ 16
  pub last_range : length info.last_key < 2 ^ 16

pub record IsHnsw (h : HnswSnapshotInfo) : Type 0 where
  pub collection_range : length h.collection < 2 ^ 16
  pub seq_range : h.seq < 2 ^ 64
  pub filename_range : length h.filename < 2 ^ 16

read_key_length :
    (key rest : Bytes)
    → length key < 2 ^ 16
    → read_uint 2 (key_length key ++ rest) ≡ ok (length key, rest)
unfolding key_length
read_key_length key rest h =
    let e : length key % 2 ^ 16 ≡ length key = omega (arith, h) in
    rw e (read_uint_lem 2 (length key) rest (omega (arith, h)))

length-key_length : (key : Bytes) → length (key_length key) ≡ 2
unfolding key_length
length-key_length key = length-little_endian 2 _

info_fields : SsTableInfo → Bytes → Bytes
info_fields info rest =
    little_endian 8 info.id
    ++ (little_endian 1 info.level
        ++ (key_length info.first_key
            ++ (info.first_key ++ (key_length info.last_key ++ (info.last_key ++ rest)))))

pub append_sstable_info_lem :
    (buf : Bytes) (info : SsTableInfo)
    → append_sstable_info buf info ≡ buf ++ encode_sstable_info info
unfolding append_sstable_info encode_sstable_info
append_sstable_info_lem buf info = refl

info_shape :
    (info : SsTableInfo) (rest : Bytes) → encode_sstable_info info ++ rest ≡ info_fields info rest
unfolding append_sstable_info encode_sstable_info info_fields
info_shape info rest = simp append_assoc

info_long :
    (info : SsTableInfo) (rest : Bytes) → ltb (length (info_fields info rest)) min_info_size ≡ false
unfolding info_fields
info_long info rest =
    let t = info.last_key ++ rest in
    let u = info.first_key ++ (key_length info.last_key ++ t) in
    let l =
      length-append (little_endian 8 info.id)
        (little_endian 1 info.level ++ (key_length info.first_key ++ u)) in
    let l' = length-append (little_endian 1 info.level) (key_length info.first_key ++ u) in
    ground (
      arith,
      l,
      l',
      length-append (key_length info.first_key) u,
      length-little_endian 8 info.id,
      length-little_endian 1 info.level,
      length-key_length info.first_key,
    )

pub decode-encode_sstable_info :
    (info : SsTableInfo) (rest : Bytes)
    → IsInfo info
    → decode_sstable_info (encode_sstable_info info ++ rest) ≡ ok (info, rest)
unfolding decode_sstable_info
decode-encode_sstable_info info rest h =
    ap decode_sstable_info (info_shape info rest)
    ∙ rw (info_long info rest) (
        unfold info_fields in
        rw
          (
            read_uint_lem 8 info.id
                (little_endian 1 info.level
                  ++ (key_length info.first_key
                      ++ (info.first_key ++ (key_length info.last_key ++ (info.last_key ++ rest)))))
                (omega (arith, h.id_range)),
            read_uint_lem 1 info.level
                (key_length info.first_key
                  ++ (info.first_key ++ (key_length info.last_key ++ (info.last_key ++ rest))))
                (omega (arith, h.level_range)),
            read_key_length info.first_key _ h.first_range,
            read_bytes_lem info.first_key (key_length info.last_key ++ (info.last_key ++ rest)),
            read_key_length info.last_key (info.last_key ++ rest) h.last_range,
            read_bytes_lem info.last_key rest,
          )
          refl)

hnsw_fields : HnswSnapshotInfo → Bytes → Bytes
hnsw_fields h rest =
    key_length h.collection
    ++ (h.collection ++ (little_endian 8 h.seq ++ (key_length h.filename ++ (h.filename ++ rest))))

hnsw_shape :
    (h : HnswSnapshotInfo) (rest : Bytes) → encode_hnsw_snapshot h ++ rest ≡ hnsw_fields h rest
unfolding encode_hnsw_snapshot hnsw_fields
hnsw_shape h rest = simp append_assoc

hnsw_long :
    (h : HnswSnapshotInfo) (rest : Bytes) → ltb (length (hnsw_fields h rest)) min_hnsw_size ≡ false
unfolding hnsw_fields
hnsw_long h rest =
    let t = h.filename ++ rest in
    let u = little_endian 8 h.seq ++ (key_length h.filename ++ t) in
    ground (
      arith,
      length-append (key_length h.collection) (h.collection ++ u),
      length-append h.collection u,
      length-append (little_endian 8 h.seq) (key_length h.filename ++ t),
      length-append (key_length h.filename) t,
      length-key_length h.collection,
      length-little_endian 8 h.seq,
      length-key_length h.filename,
    )

pub decode-encode_hnsw_snapshot :
    (h : HnswSnapshotInfo) (rest : Bytes)
    → IsHnsw h
    → decode_hnsw_snapshot (encode_hnsw_snapshot h ++ rest) ≡ ok (h, rest)
unfolding decode_hnsw_snapshot
decode-encode_hnsw_snapshot h rest v =
    ap decode_hnsw_snapshot (hnsw_shape h rest)
    ∙ rw (hnsw_long h rest) (
        unfold hnsw_fields in
        rw
          (
            read_key_length h.collection
                (h.collection
                  ++ (little_endian 8 h.seq ++ (key_length h.filename ++ (h.filename ++ rest))))
                v.collection_range,
            read_bytes_lem h.collection
                (little_endian 8 h.seq ++ (key_length h.filename ++ (h.filename ++ rest))),
            read_uint_lem 8 h.seq (key_length h.filename ++ (h.filename ++ rest))
                (omega (arith, v.seq_range)),
            read_key_length h.filename (h.filename ++ rest) v.filename_range,
            read_bytes_lem h.filename rest,
          )
          refl)

-- The loops over the entries, with the buffer that they append to taken out.
abbrev pub infos_bytes : List SsTableInfo → Bytes
infos_bytes [] = []
infos_bytes (t ∷ ts) = encode_sstable_info t ++ infos_bytes ts

abbrev pub hnsw_bytes : List HnswSnapshotInfo → Bytes
hnsw_bytes [] = []
hnsw_bytes (h ∷ hs) = encode_hnsw_snapshot h ++ hnsw_bytes hs

pub append_infos_lem :
    (buf : Bytes) (ts : List SsTableInfo) → append_infos buf ts ≡ buf ++ infos_bytes ts
unfolding append_infos
append_infos_lem buf [] = sym (append-nil buf)
append_infos_lem buf (t ∷ ts) =
    append_infos_lem (append_sstable_info buf t) ts
    ∙ ap (λ b. b ++ infos_bytes ts) (append_sstable_info_lem buf t)
    ∙ append_assoc buf (encode_sstable_info t) (infos_bytes ts)

pub append_hnsw_lem :
    (buf : Bytes) (hs : List HnswSnapshotInfo) → append_hnsw buf hs ≡ buf ++ hnsw_bytes hs
unfolding append_hnsw
append_hnsw_lem buf [] = sym (append-nil buf)
append_hnsw_lem buf (h ∷ hs) =
    append_hnsw_lem (buf ++ encode_hnsw_snapshot h) hs
    ∙ append_assoc buf (encode_hnsw_snapshot h) (hnsw_bytes hs)

pub decode_infos_lem :
    (ts : List SsTableInfo) (rest : Bytes)
    → All IsInfo ts
    → decode_infos (length ts) (infos_bytes ts ++ rest) ≡ ok (ts, rest)
unfolding decode_infos
decode_infos_lem [] rest h = refl
decode_infos_lem (t ∷ ts) rest (ht, hs) =
    rw
      (
        append_assoc (encode_sstable_info t) (infos_bytes ts) rest,
        decode-encode_sstable_info t (infos_bytes ts ++ rest) ht,
        decode_infos_lem ts rest hs,
      )
      refl

pub decode_hnsw_entries_lem :
    (hs : List HnswSnapshotInfo) (rest : Bytes)
    → All IsHnsw hs
    → decode_hnsw_entries (length hs) (hnsw_bytes hs ++ rest) ≡ ok (hs, rest)
unfolding decode_hnsw_entries
decode_hnsw_entries_lem [] rest v = refl
decode_hnsw_entries_lem (h ∷ hs) rest (vh, vs) =
    rw
      (
        append_assoc (encode_hnsw_snapshot h) (hnsw_bytes hs) rest,
        decode-encode_hnsw_snapshot h (hnsw_bytes hs ++ rest) vh,
        decode_hnsw_entries_lem hs rest vs,
      )
      refl
