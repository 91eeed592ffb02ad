-- ===== src/Socket/Reader/Runs.antt =====
-- Runs of the reader at concrete inputs, and its theorems at them.
use mathlib.Core.List.{flatten}
use paintty_server_go.Prelude.{◌≡◌, ◌≢◌, refl, true, false, List, [], ◌∷◌, Bytes, some, ok, arith}
use paintty_server_go.Common.{Zlib, qcompress, quncompress, quncompress-qcompress}
use paintty_server_go.Socket.Pack.{
  drawing, command, protocol_pack, header_bits, buffer_to_pack, assamble_pack,
}
use paintty_server_go.Socket.Reader.{new_reader, waiting, panicked, stuck, on_data, run_read_loop}
use paintty_server_go.Socket.Reader.Chunks.{report, run_read_loop-flatten, on_data-ne-stuck}
use paintty_server_go.Socket.Reader.RoundTrip.{
  Pack, wire, received, run_read_loop-wire, run_read_loop_zero_size,
}

-- A stored, uncompressed stream.
abbrev stored : Zlib
stored = record { deflate = λ d. d; inflate = λ d. some d; inflate-deflate = λ d. refl }

-- The case of TestProtocolPack.
protocol_pack_test : protocol_pack (1 ∷ 2 ∷ []) ≡ 0 ∷ 0 ∷ 0 ∷ 2 ∷ 1 ∷ 2 ∷ []
unfolding protocol_pack
protocol_pack_test = refl

abbrev stroke : Pack
stroke = record { header = record { compress = true; pack_type = drawing }; content = 7 ∷ 8 ∷ [] }

abbrev order : Pack
order = record { header = record { compress = false; pack_type = command }; content = 5 ∷ [] }

-- The header byte of TestBufferToPack is 0x05.
wire-stroke :
    wire stored (stroke ∷ order ∷ [])
    ≡ 0 ∷ 0 ∷ 0 ∷ 7 ∷ 5 ∷ 0 ∷ 0 ∷ 0 ∷ 2 ∷ 7 ∷ 8 ∷ 0 ∷ 0 ∷ 0 ∷ 2 ∷ 2 ∷ 5 ∷ []
unfolding assamble_pack buffer_to_pack header_bits protocol_pack qcompress
wire-stroke = refl

abbrev cut : List Bytes
cut =
    (0 ∷ 0 ∷ 0 ∷ []) ∷ (7 ∷ 5 ∷ 0 ∷ 0 ∷ 0 ∷ 2 ∷ 7 ∷ []) ∷ [] ∷ (8 ∷ 0 ∷ 0 ∷ 0 ∷ 2 ∷ 2 ∷ 5 ∷ []) ∷ []

quncompress-qcompress_run : quncompress stored (0 ∷ 0 ∷ 0 ∷ 1 ∷ 9 ∷ []) ≡ ok (9 ∷ [])
unfolding qcompress
quncompress-qcompress_run = quncompress-qcompress stored (9 ∷ []) refl

run_read_loop-flatten_example :
    report (run_read_loop stored new_reader cut) ≡ report (on_data stored new_reader (flatten cut))
run_read_loop-flatten_example = run_read_loop-flatten stored cut

on_data-ne-stuck_example : (on_data stored new_reader (0 ∷ 0 ∷ 0 ∷ 7 ∷ 5 ∷ [])).status ≢ stuck
on_data-ne-stuck_example = on_data-ne-stuck stored new_reader (0 ∷ 0 ∷ 0 ∷ 7 ∷ 5 ∷ [])

run_read_loop-wire_example :
    report (run_read_loop stored new_reader cut)
    ≡ (received stored stroke ∷ received stored order ∷ [], waiting)
unfolding assamble_pack buffer_to_pack header_bits protocol_pack qcompress flatten
run_read_loop-wire_example =
    run_read_loop-wire stored (stroke ∷ order ∷ []) cut (omega arith, (omega arith, tt)) refl

run_read_loop_zero_size_example :
    report (run_read_loop stored new_reader ((0 ∷ 0 ∷ 0 ∷ []) ∷ (0 ∷ 7 ∷ []) ∷ [])) ≡ ([], panicked)
unfolding flatten
run_read_loop_zero_size_example =
    run_read_loop_zero_size stored [] ((0 ∷ 0 ∷ 0 ∷ []) ∷ (0 ∷ 7 ∷ []) ∷ []) (7 ∷ []) tt refl
