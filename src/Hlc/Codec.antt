-- ===== src/Hlc/Codec.antt =====
-- hlc/timestamp.go: `Encode` and `DecodeTimestamp`.
use lithicdb.Common.{
  ◌+◌, ◌^◌, ◌<◌, ◌≡◌, refl, ◌∙◌, ◌++◌, arith, length, length-append, length-take, length-drop, take,
  drop,
}
use lithicdb.Common.Int.{to_u64, from_u64, to_u64-lt, from_u64-to_u64, IsI64}
use lithicdb.Common.Bytes.{Bytes}
use lithicdb.Common.Endian.{big_endian, from_big_endian, length-big_endian, from_big_endian_lem}
use lithicdb.Common.Slices.{take_append, drop_append, drop_add, take_all}
use lithicdb.Hlc.{Timestamp, timestamp_header_size, ok, encode, node_id_len, decode_timestamp}

-- What the fields of the Go struct can hold.
pub record IsTimestamp (t : Timestamp) : Type 0 where
  pub wall_range : IsI64 t.wall_time
  pub logical_range : t.logical < 2 ^ 32

-- The layout of an encoded timestamp, read back field by field.
layout : Bytes → Bytes → Bytes → Bytes → Bytes
layout w l n id = w ++ (l ++ (n ++ id))

module _ (w l n id : Bytes) (hw : length w ≡ 8) (hl : length l ≡ 4) (hn : length n ≡ 2) where
  length-layout : length (layout w l n id) ≡ 14 + length id
  unfolding layout
  length-layout =
      omega (arith, length-append w (l ++ (n ++ id)), length-append l (n ++ id), length-append n id)

  take_wall : take 8 (layout w l n id) ≡ w
  unfolding layout
  take_wall = take_append 8 w _ (omega arith)

  drop_wall : drop 8 (layout w l n id) ≡ l ++ (n ++ id)
  unfolding layout
  drop_wall = drop_append 8 w _ (omega arith)

  take_logical : take 4 (drop 8 (layout w l n id)) ≡ l
  take_logical = rw drop_wall (take_append 4 l _ (omega arith))

  drop_logical : drop 12 (layout w l n id) ≡ n ++ id
  drop_logical =
      drop_add 8 4 12 (layout w l n id) refl ∙ rw drop_wall (drop_append 4 l _ (omega arith))

  take_len : take 2 (drop 12 (layout w l n id)) ≡ n
  take_len = rw drop_logical (take_append 2 n _ (omega arith))

  drop_len : drop 14 (layout w l n id) ≡ id
  drop_len =
      drop_add 12 2 14 (layout w l n id) refl ∙ rw drop_logical (drop_append 2 n _ (omega arith))

  decode-layout :
      from_big_endian 0 n ≡ length id
      → decode_timestamp (layout w l n id)
        ≡ ok (record {
          wall_time = from_u64 (from_big_endian 0 w);
          logical = from_big_endian 0 l;
          node_id = id;
        })
  unfolding decode_timestamp
  decode-layout h = ground (
    arith,
    length-layout,
    take_wall,
    take_logical,
    take_len,
    drop_len,
    take_all (length id) id (omega arith),
  )

module _ (t : Timestamp) (bs : Bytes) (valid : IsTimestamp t) (e : encode t ≡ ok bs) where
  encode_layout :
      (length t.node_id < 2 ^ 16)
      × (bs
          ≡ layout
              (big_endian 8 (to_u64 t.wall_time))
              (big_endian 4 t.logical)
              (big_endian 2 (length t.node_id))
              t.node_id)
  unfolding encode layout
  encode_layout = ground arith

  -- Decoding an encoded timestamp gives the timestamp back.
  pub decode-encode : decode_timestamp bs ≡ ok t
  decode-encode = rw encode_layout.1 (
      decode-layout (big_endian 8 (to_u64 t.wall_time)) (big_endian 4 t.logical)
        (big_endian 2 (length t.node_id)) t.node_id (length-big_endian 8 _) (length-big_endian 4 _)
        (length-big_endian 2 _) (from_big_endian_lem 2 _ encode_layout.0)
      ∙ rw (
        from_big_endian_lem 8 (to_u64 t.wall_time) (to_u64-lt t.wall_time),
        from_u64-to_u64 t.wall_time valid.wall_range,
        from_big_endian_lem 4 t.logical valid.logical_range,
      ))

-- No proper prefix of an encoding, and no extension of it, is accepted.
pub decode_length :
    (bs : Bytes) (t : Timestamp)
    → decode_timestamp bs ≡ ok t
    → length bs ≡ timestamp_header_size + length t.node_id
unfolding decode_timestamp
decode_length bs t h = ground (arith, length-take (node_id_len bs) (drop 14 bs), length-drop 14 bs)
