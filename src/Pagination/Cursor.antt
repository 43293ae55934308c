-- ===== src/Pagination/Cursor.antt =====
-- A cursor is read back as it was written.
use e_campus_server.Prelude.{ℕ, ◌≡◌, refl, false, some, [], ◌∷◌, ◌++◌, arith, contains, ◌<◌, ◌^◌}
use e_campus_server.Pagination.{
  Text, Codec, ℤ, IsInt64, colon, split_at_colon, encode_cursor, decode_cursor,
}

split_at_colon-append :
    (before after : Text)
    → contains colon before ≡ false
    → split_at_colon (before ++ (colon ∷ after)) ≡ some (before, after)
unfolding split_at_colon
split_at_colon-append [] after h = refl
split_at_colon-append (c ∷ before) after h = ground (arith, split_at_colon-append before after)

-- With a base64 that is read back as it was written, as are the decimal numbers of 64 signed bits and
-- the UUIDs of 128 bits, and decimal numbers without a colon: a cursor decodes to the nanoseconds and
-- the id that it was made of, if these are of so many bits.
pub decode_cursor-encode_cursor :
    (codec : Codec)
    → ((s : Text) → codec.base64_decode (codec.base64_encode s) ≡ some s)
    → ((n : ℤ) → IsInt64 n → codec.parse_int (codec.decimal n) ≡ some n)
    → ((n : ℤ) → IsInt64 n → contains colon (codec.decimal n) ≡ false)
    → ((id : ℕ) → id < 2 ^ 128 → codec.parse_uuid (codec.uuid_text id) ≡ some id)
    → (nanos : ℤ) (id : ℕ) → IsInt64 nanos
    → id < 2 ^ 128
    → decode_cursor codec (encode_cursor codec nanos id) ≡ some (nanos, id)
unfolding decode_cursor encode_cursor
decode_cursor-encode_cursor codec base64 numbers plain uuids nanos id small wide =
    rw
      (
        base64 (codec.decimal nanos ++ (colon ∷ codec.uuid_text id)),
        split_at_colon-append (codec.decimal nanos) (codec.uuid_text id) (plain nanos small),
        numbers nanos small,
        uuids id wide,
      )
      refl
