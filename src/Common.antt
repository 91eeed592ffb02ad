-- ===== src/Common.antt =====
-- pkg/Common/Common.go: Qt's compressed blocks, a four-byte length before a zlib stream.
use paintty_server_go.Prelude.{
  [], ℕ, ◌/◌, ◌%◌, ◌^◌, ◌≡◌, Option, none, some, ◌∷◌, ◌++◌, arith, Bytes, Result, ok, err,
  slice_bounds, bad_stream, ltb, if◌then◌else◌, length, drop,
}

-- compress/zlib. `deflate d` is what a Writer holds after `Write(d)` and `Close`; `inflate s` is
-- none if `NewReader` refuses `s`, and otherwise the bytes that `io.Copy` collects from the reader
-- before it ends or fails (the code drops the error of `io.Copy`).
pub record Zlib : Type 0 where
  pub deflate : Bytes → Bytes
  pub inflate : Bytes → Option Bytes
  pub inflate-deflate : (d : Bytes) → inflate (deflate d) ≡ some d

-- The four length bytes, highest first: `byte(length >> 24)`, `(length & 0x00FF0000) >> 16`,
-- `(length & 0x0000FF00) >> 8` and `length & 0xFF`, each written as a quotient and a remainder.
abbrev pub length_bytes : ℕ → Bytes
length_bytes n = (n / 2 ^ 24 % 256) ∷ (n / 2 ^ 16 % 256) ∷ (n / 2 ^ 8 % 256) ∷ (n % 256) ∷ []

unfoldable pub qcompress : Zlib → Bytes → Result Bytes
qcompress z data' = ok (length_bytes (length data') ++ z.deflate data')

-- `data[4:]` panics below four bytes; the deferred function turns that into an error.
unfoldable pub quncompress : Zlib → Bytes → Result Bytes
quncompress z data' =
    if ltb (length data') 4
    then err slice_bounds
    else elim (z.inflate (drop 4 data')) [ none ↦ err bad_stream | some d ↦ ok d ]

-- Where QCompress has a result, QUncompress of it returns what was compressed.
pub quncompress-qcompress :
    (z : Zlib) (d : Bytes) {packed : Bytes}
    → qcompress z d ≡ ok packed
    → quncompress z packed ≡ ok d
unfolding qcompress quncompress
quncompress-qcompress z d e = ground (arith, z.inflate-deflate d)
