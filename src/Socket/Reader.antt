-- ===== src/Socket/Reader.antt =====
-- pkg/Socket/SocketReader.go: the reader that cuts a TCP stream into packages.
-- A handler is started as a goroutine of its own for each package; here `out` lists the packages
-- in the order in which the handlers are started.
pub mod Rounds
pub mod Chunks
pub mod RoundTrip
mod Runs
use paintty_server_go.Prelude.{
  ℕ, zero, suc, ◌+◌, ◌*◌, ◌/◌, ◌%◌, ◌^◌, Bool, [], List, ◌∷◌, ◌++◌, Bytes, Result, ok, err, Error,
  ◌==◌, ltb, ◌&&◌, if◌then◌else◌, length, take, drop, get_or,
}
use paintty_server_go.Common.{Zlib, quncompress}
use paintty_server_go.Socket.Pack.{PackHeader, protocol_pack}

pub record Package : Type 0 where
  pub package_type : ℕ
  pub unpacked : Bytes
  pub repacked : Bytes

pub record Reader : Type 0 where
  pub buffer : Bytes
  pub data_size : ℕ

abbrev pub new_reader : Reader
new_reader = record { buffer = []; data_size = 0 }

-- GET_PACKAGE_SIZE_FROM_DATA, on a buffer of four bytes or more.
unfoldable pub package_size : Bytes → ℕ
package_size b = get_or b 0 0 * 2 ^ 24 + get_or b 1 0 * 2 ^ 16 + get_or b 2 0 * 2 ^ 8 + get_or b 3 0

abbrev pub get_package_size : Reader → Reader
get_package_size r = record { buffer = drop 4 r.buffer; data_size = package_size r.buffer }

-- GET_FLAG: `(b & 0x1) == 0x1`, and `(b >> 0x1) & MASK` with the mask 3.
unfoldable pub get_flag : ℕ → PackHeader
get_flag b = record { compress = b % 2 == 1; pack_type = b / 2 % 4 }

-- What the rest of a round makes of the bytes of one package. `pkgData[0]` panics on no bytes.
pub data Parsed : Type 0 where
  parsed : Package → Parsed
  refused : Error → Parsed
  index_panic : Parsed

unfoldable pub parse_package : Zlib → Bytes → Parsed
parse_package z [] = index_panic
parse_package z (b ∷ block) =
    let header : PackHeader = get_flag b in
    let repacked : Bytes = protocol_pack (b ∷ block) in
    let unpacked : Result Bytes = if header.compress then quncompress z block else ok block in
    elim unpacked [
      | err e ↦ refused e
      | ok d ↦
          parsed (record { package_type = header.pack_type; unpacked = d; repacked = repacked })
    ]

-- One round of the loop of OnData, by how it ends: `break`, the next round with `dataSize = 0`
-- after a package, `return err`, or a panic.
pub data Round : Type 0 where
  waits : Reader → Round
  emits : Package → Reader → Round
  fails : Error → Reader → Round
  panics : Reader → Round

-- What follows READ_RAW_BYTES, on the reader without the bytes of the package.
abbrev pub after_parse : Reader → Parsed → Round
after_parse r (parsed p) = emits p (record r { data_size = 0 })
after_parse r (refused e) = fails e r
after_parse r index_panic = panics r

-- READ_RAW_BYTES and what follows it, with the size known and enough bytes in the buffer.
abbrev pub read_package : Zlib → Reader → Round
read_package z r =
    after_parse (record r { buffer = drop r.data_size r.buffer })
      (parse_package z (take r.data_size r.buffer))

unfoldable pub read_sized : Zlib → Reader → Round
read_sized z r = if ltb (length r.buffer) r.data_size then waits r else read_package z r

unfoldable pub round : Zlib → Reader → Round
round z r =
    if r.data_size == 0
    then (if ltb (length r.buffer) 4 then waits r else read_sized z (get_package_size r))
    else read_sized z r

-- How a call of OnData ends. `stuck` is no outcome of the code: the fuel of the loop ran out.
pub data Status : Type 0 where
  waiting : Status
  failed : Error → Status
  panicked : Status
  stuck : Status

pub record Run : Type 0 where
  pub reader : Reader
  pub out : List Package
  pub status : Status

abbrev pub emit : Package → Run → Run
emit p x = record x { out = p ∷ x.out }

-- What the loop does after a round, its later rounds being `next`.
abbrev pub follow : (Reader → Run) → Round → Run
follow next (waits r) = record { reader = r; out = []; status = waiting }
follow next (emits p r) = emit p (next r)
follow next (fails e r) = record { reader = r; out = []; status = failed e }
follow next (panics r) = record { reader = r; out = []; status = panicked }

unfoldable pub rounds : Zlib → ℕ → Reader → Run
rounds z zero r = record { reader = r; out = []; status = stuck }
rounds z (suc fuel) r = follow (rounds z fuel) (round z r)

abbrev pub push : Reader → Bytes → Reader
push r chunk = record r { buffer = r.buffer ++ chunk }

-- Each round takes a byte at least, so the length of the buffer is fuel enough.
unfoldable pub on_data : Zlib → Reader → Bytes → Run
on_data z r chunk = rounds z (suc (length (push r chunk).buffer)) (push r chunk)

-- What happens after a call of OnData: more calls, unless it reported an error or panicked.
abbrev pub resume : Run → (Reader → Run) → Run
resume call next = elim call.status [
  | waiting ↦ record (next call.reader) { out = call.out ++ (next call.reader).out }
  | _ ↦ call
]

-- SocketClient.RunReadLoop of pkg/Socket/Socket.go: reads of the connection, an empty one passed
-- over, until OnData reports an error. The end of the list is a read error, which ends the loop.
unfoldable pub run_read_loop : Zlib → Reader → List Bytes → Run
run_read_loop z r [] = record { reader = r; out = []; status = waiting }
run_read_loop z r (chunk ∷ chunks) =
    let continued : Run = run_read_loop z r chunks in
    if length chunk == 0
    then continued
    else resume (on_data z r chunk) (λ r'. run_read_loop z r' chunks)
