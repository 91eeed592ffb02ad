-- ===== src/Socket/Pack.antt =====
-- pkg/Socket/Utils.go, and AssamblePack of pkg/Socket/Socket.go: headers, packs and frames.
use paintty_server_go.Prelude.{
  ℕ, ◌*◌, ◌/◌, ◌%◌, ◌^◌, bit_or, Bool, [], ◌∷◌, Bytes, Result, ok, err, ◌>>=◌, if◌then◌else◌,
  length,
}
use paintty_server_go.Common.{Zlib, qcompress}

-- The pack types, in the order of `iota`, and the mask.
abbrev pub manager : ℕ
manager = 0

abbrev pub command : ℕ
command = 1

abbrev pub drawing : ℕ
drawing = 2

abbrev pub message : ℕ
message = 3

abbrev pub mask : ℕ
mask = message

pub record PackHeader : Type 0 where
  pub compress : Bool
  pub pack_type : ℕ

-- `length & 0xFF` and `length >>= 8`, four times, written highest byte first.
unfoldable pub protocol_pack : Bytes → Bytes
protocol_pack block =
    let n : ℕ = length block in
    let c1 : ℕ = n % 256 in
    let n1 : ℕ = n / 2 ^ 8 in
    let c2 : ℕ = n1 % 256 in
    let n2 : ℕ = n1 / 2 ^ 8 in
    let c3 : ℕ = n2 % 256 in
    let n3 : ℕ = n2 / 2 ^ 8 in let c4 : ℕ = n3 % 256 in c4 ∷ c3 ∷ c2 ∷ c1 ∷ block

-- `byte((header.PackType & MASK) << 0x1)`: the mask is 3, so `& MASK` keeps two bits.
abbrev pub pack_type_bits : PackHeader → ℕ
pack_type_bits h = h.pack_type % 4 * 2 % 256

unfoldable pub header_bits : PackHeader → ℕ
header_bits h = bit_or (if h.compress then 0x1 else 0x0) (pack_type_bits h)

unfoldable pub buffer_to_pack : Zlib → Bytes → PackHeader → Result Bytes
buffer_to_pack z block h = do
  converted ← if h.compress then qcompress z block else ok block
  ok (header_bits h ∷ converted)

unfoldable pub assamble_pack : Zlib → PackHeader → Bytes → Bytes
assamble_pack z h block = elim (buffer_to_pack z block h) [
  | err e ↦ []
  | ok result ↦ protocol_pack result
]
