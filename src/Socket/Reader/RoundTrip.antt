-- ===== src/Socket/Reader/RoundTrip.antt =====
-- Writing and reading: what OnData makes of the frames that AssamblePack builds.
use mathlib.Core.List.{flatten}
use paintty_server_go.Prelude.{
  ℕ, zero, suc, ◌+◌, ◌*◌, ◌%◌, ◌^◌, ◌<◌, bit_or, ◌≡◌, refl, ap, ◌∙◌, inl, inr, false, List, [], ◌∷◌,
  ◌++◌, map, Bytes, ok, arith, ltb, length, drop, if◌then◌else◌, Bool-cases, length-append,
  append-nil, append_assoc, take-length-append, drop-length-append,
}
use paintty_server_go.Common.{Zlib, length_bytes, qcompress, quncompress, quncompress-qcompress}
use paintty_server_go.Socket.Pack.{
  PackHeader, protocol_pack, header_bits, buffer_to_pack, assamble_pack,
}
use paintty_server_go.Socket.Reader.{
  new_reader, Package, emits, panics, Status, waiting, panicked, emit, parsed, package_size,
  get_flag, parse_package, read_sized, round, rounds, on_data, run_read_loop,
}
use paintty_server_go.Socket.Reader.Chunks.{report, run_read_loop-flatten, rounds-fuel}

bit_or_flag : (t : ℕ) → t < 4 → bit_or 1 (t * 2) ≡ t * 2 + 1
bit_or_flag zero h = refl
bit_or_flag (suc zero) h = refl
bit_or_flag (suc (suc zero)) h = refl
bit_or_flag (suc (suc (suc zero))) h = refl
bit_or_flag (suc (suc (suc (suc t)))) h = absurd (omega arith)

bit_or_none : (t : ℕ) → t < 4 → bit_or 0 (t * 2) ≡ t * 2
bit_or_none zero h = refl
bit_or_none (suc zero) h = refl
bit_or_none (suc (suc zero)) h = refl
bit_or_none (suc (suc (suc zero))) h = refl
bit_or_none (suc (suc (suc (suc t)))) h = absurd (omega arith)

-- The flag byte says what the header says, as far as two bits can.
get_flag-header_bits :
    (h : PackHeader)
    → get_flag (header_bits h) ≡ record { compress = h.compress; pack_type = h.pack_type % 4 }
unfolding get_flag header_bits
get_flag-header_bits h =
    let small : h.pack_type % 4 < 4 = omega arith in
    let bits : h.pack_type % 4 * 2 % 256 ≡ h.pack_type % 4 * 2 = omega arith in
    rw bits
      (ground (arith, bit_or_flag (h.pack_type % 4) small, bit_or_none (h.pack_type % 4) small))

pub length-protocol_pack : (body : Bytes) → length (protocol_pack body) ≡ length body + 4
unfolding protocol_pack
length-protocol_pack body = omega arith

-- The four length bytes are read back, below 2 ^ 32.
package_size-protocol_pack :
    (body rest : Bytes)
    → length body < 2 ^ 32
    → package_size (protocol_pack body ++ rest) ≡ length body
unfolding package_size protocol_pack
package_size-protocol_pack body rest h = omega arith

module _ (z : Zlib) where
  -- A stream starts with a frame: the package is cut off, and the rest stays.
  round-frame :
      (body rest : Bytes) (p : Package)
      → length body < 2 ^ 32
      → parse_package z body ≡ parsed p
      → round z (record { buffer = protocol_pack body ++ rest; data_size = 0 })
        ≡ emits p (record { buffer = rest; data_size = 0 })
  unfolding round read_sized
  round-frame body rest p h e =
      let long : ltb (length (protocol_pack body ++ rest)) 4 ≡ false =
        ground (arith, length-append (protocol_pack body) rest, length-protocol_pack body) in
      rw (long, package_size-protocol_pack body rest h)
        (rw cut (rw full (rw (take-length-append body rest, e, drop-length-append body rest))))
    where
      cut : drop 4 (protocol_pack body ++ rest) ≡ body ++ rest
      cut = unfold protocol_pack in refl

      full : ltb (length (body ++ rest)) (length body) ≡ false
      full = ground (arith, length-append body rest)

  -- So a call of OnData hands on that package first.
  on_data-frame :
      (body rest : Bytes) (p : Package)
      → length body < 2 ^ 32
      → parse_package z body ≡ parsed p
      → on_data z new_reader (protocol_pack body ++ rest) ≡ emit p (on_data z new_reader rest)
  unfolding on_data rounds
  on_data-frame body rest p h e = rw (round-frame body rest p h e) (
      ap (emit p) (
        rounds-fuel z _ (suc (length rest)) (record { buffer = rest; data_size = 0 })
          (omega (arith, length-append (protocol_pack body) rest, length-protocol_pack body))
          (omega arith)))

-- What a sender packs: a header and the bytes under it.
pub record Pack : Type 0 where
  pub header : PackHeader
  pub content : Bytes

module _ (z : Zlib) where
  abbrev pub frame : Pack → Bytes
  frame k = assamble_pack z k.header k.content

  -- The size field has four bytes.
  abbrev pub Fits : Pack → Type 0
  Fits k = length (frame k) < 2 ^ 32 + 4

  abbrev pub AllFit : List Pack → Type 0
  AllFit [] = Unit
  AllFit (k ∷ ks) = Fits k × AllFit ks

  abbrev pub wire : List Pack → Bytes
  wire [] = []
  wire (k ∷ ks) = frame k ++ wire ks

  -- The package that a receiver is meant to get: the type's low two bits, the bytes that were
  -- packed, and the frame itself, for sending it on.
  abbrev pub received : Pack → Package
  received k = record {
    package_type = k.header.pack_type % 4;
    unpacked = k.content;
    repacked = frame k;
  }

  -- The bytes under the flag, compressed if the header asks for it.
  abbrev block : Pack → Bytes
  block k =
      if k.header.compress
      then length_bytes (length k.content) ++ z.deflate k.content
      else k.content

  abbrev pub body : Pack → Bytes
  body k = header_bits k.header ∷ block k

  pub frame-body : (k : Pack) → frame k ≡ protocol_pack (body k)
  unfolding assamble_pack buffer_to_pack qcompress
  frame-body k = elim (Bool-cases k.header.compress) [
    | inl packed ↦ rw packed
    | inr plain ↦ rw plain
  ]

  unpack-block :
      (k : Pack)
      → (if k.header.compress then quncompress z (block k) else ok (block k)) ≡ ok k.content
  unfolding qcompress
  unpack-block k = elim (Bool-cases k.header.compress) [
    | inl packed ↦ rw packed (quncompress-qcompress z k.content refl)
    | inr plain ↦ rw plain
  ]

  parse-body : (k : Pack) → parse_package z (body k) ≡ parsed (received k)
  unfolding parse_package
  parse-body k =
      rw (get_flag-header_bits k.header, parse_package)
        (rw (unpack-block k) (rw (get_flag-header_bits k.header, frame-body k)))

  on_data-assamble_pack :
      (k : Pack) (rest : Bytes)
      → Fits k
      → on_data z new_reader (frame k ++ rest) ≡ emit (received k) (on_data z new_reader rest)
  on_data-assamble_pack k rest fits =
      ap (λ (f : Bytes). on_data z new_reader (f ++ rest)) (frame-body k)
      ∙ on_data-frame z (body k) rest (received k)
          (omega (arith, length-protocol_pack (body k), ap length (frame-body k))) (parse-body k)

  abbrev pub prepend : List Package → List Package × Status → List Package × Status
  prepend ps x = (ps ++ x.0, x.1)

  on_data-wire :
      (ks : List Pack) (rest : Bytes)
      → AllFit ks
      → report (on_data z new_reader (wire ks ++ rest))
        ≡ prepend (map received ks) (report (on_data z new_reader rest))
  on_data-wire [] rest fit = refl
  on_data-wire (k ∷ ks) rest fit =
      rw (append_assoc (frame k) (wire ks) rest, on_data-assamble_pack k (wire ks ++ rest) fit.0)
        (ap (λ (x : List Package × Status). (received k ∷ x.0, x.1)) (on_data-wire ks rest fit.1))

  -- If the bytes of a connection, cut into reads in any way, are the frames of some packs, each
  -- short enough for the size field, then the reader of a new connection hands on exactly the
  -- packages of those packs, in their order, and waits for more.
  pub run_read_loop-wire :
      (ks : List Pack) (chunks : List Bytes)
      → AllFit ks
      → flatten chunks ≡ wire ks
      → report (run_read_loop z new_reader chunks) ≡ (map received ks, waiting)
  unfolding on_data rounds round
  run_read_loop-wire ks chunks fit e =
      run_read_loop-flatten z chunks
      ∙ rw (e, ← append-nil (wire ks)) (on_data-wire ks [] fit ∙ rw append-nil)

  round_zero_size :
      (rest : Bytes)
      → round z (record { buffer = 0 ∷ 0 ∷ 0 ∷ 0 ∷ rest; data_size = 0 })
        ≡ panics (record { buffer = rest; data_size = 0 })
  unfolding round read_sized package_size parse_package
  round_zero_size rest =
      let long : ltb (length (0 ∷ 0 ∷ 0 ∷ 0 ∷ rest)) 4 ≡ false = ground arith in
      let full : ltb (length rest) 0 ≡ false = ground arith in rw long (rw full)

  -- Four zero bytes where a frame should start, after any frames and before any bytes, make OnData
  -- index an empty slice: the packages before them are handed on, and then the reader panics.
  pub run_read_loop_zero_size :
      (ks : List Pack) (chunks : List Bytes) (rest : Bytes)
      → AllFit ks
      → flatten chunks ≡ wire ks ++ (0 ∷ 0 ∷ 0 ∷ 0 ∷ rest)
      → report (run_read_loop z new_reader chunks) ≡ (map received ks, panicked)
  unfolding on_data rounds
  run_read_loop_zero_size ks chunks rest fit e =
      run_read_loop-flatten z chunks
      ∙ rw e
          (on_data-wire ks (0 ∷ 0 ∷ 0 ∷ 0 ∷ rest) fit ∙ rw (round_zero_size rest) (rw append-nil))
