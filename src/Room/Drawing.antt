-- ===== src/Room/Drawing.antt =====
-- What the room and its radio make of the packages of one client.
use paintty_server_go.Prelude.{
  ℕ, ◌+◌, ◌^◌, ◌<◌, ◌≡◌, refl, sym, ap, ◌∙◌, true, false, List, [], ◌∷◌, ◌++◌, map, Bytes, arith,
  length, length-append, append_assoc, append-nil,
}
use paintty_server_go.Common.{Zlib}
use paintty_server_go.BufferedFile.Log.{log}
use paintty_server_go.Socket.Reader.{Package}
use paintty_server_go.Socket.Reader.RoundTrip.{
  Pack, body, frame, frame-body, length-protocol_pack, wire, received,
}
use paintty_server_go.Socket.Client.Wire.{data_message, pack_of}
use paintty_server_go.Radio.{Radio, Outcome, done, ◌>>=◌}
use paintty_server_go.Radio.Loop.{Part, write_part, send_part}
use paintty_server_go.Radio.Loop
use paintty_server_go.Radio.Owed.{IsFine, write-owed}
use paintty_server_go.Room.{Room, Effect, write_chan, send_chan, has_user}
use paintty_server_go.Room.Handlers.{Surroundings}
use paintty_server_go.Room.Serving.{Json, process_package}
use paintty_server_go.Room.Strokes.{packs, frame_of}
use paintty_server_go.Radio.Pieces.{bytes_of}

-- processClient over the packages of a client, until its goroutine ends.
unfoldable pub process_packages :
    Surroundings → Json → List Package → Room → ℕ → Outcome (Room × List Effect)
process_packages s j [] m c = done (m, [])
process_packages s j (p ∷ ps) m c = process_package s j p m c >>= λ x. elim x.2 [
  | true ↦ process_packages s j ps x.0 c >>= λ y. done (y.0, x.1 ++ y.1)
  | false ↦ done (x.0, x.1)
]

-- What the room's effects give the radio.
abbrev pub parts_of : List Effect → List Part
parts_of [] = []
parts_of (write_chan d ∷ effects) = write_part d ∷ parts_of effects
parts_of (send_chan d ∷ effects) = send_part d ∷ parts_of effects
parts_of (_ ∷ effects) = parts_of effects

module _ (z : Zlib) where
  abbrev pub recorded : List Bytes → List Effect
  recorded strokes = map (λ (k : Pack). write_chan (frame z k)) (packs strokes)

  pub process_packages-received :
      (s : Surroundings) (j : Json) (strokes : List Bytes) (m : Room) (c : ℕ)
      → has_user m c ≡ true
      → m.radio.closed ≡ false
      → process_packages s j (map (received z) (packs strokes)) m c ≡ done (m, recorded strokes)
  unfolding process_packages process_package
  process_packages-received s j [] m c user runs = refl
  process_packages-received s j (d ∷ strokes) m c user runs =
      ground (arith, user, runs, process_packages-received s j strokes m c user runs)

  frame_some : (d : Bytes) → 0 < length (frame z (pack_of (data_message d)))
  frame_some d =
      let k : Pack = pack_of (data_message d) in
      omega (arith, length-protocol_pack (body z k), ap length (frame-body z k))

  -- The radio takes all of the strokes, and they stand in the archive.
  pub run-recorded :
      (strokes : List Bytes) (r : Radio) (a : ℕ)
      → IsFine r a
      → length (log r.file) + length (wire z (packs strokes)) < 2 ^ 63
      → (r' : Radio) × (Loop.run (parts_of (recorded strokes)) r ≡ done r')
        × (log r'.file ≡ log r.file ++ wire z (packs strokes))
  unfolding Loop.run
  run-recorded [] r a fine small = (r, refl, sym (append-nil (log r.file)))
  run-recorded (d ∷ strokes) r a fine small =
      let k : Bytes = frame z (pack_of (data_message d)) in
      let rest : Bytes = wire z (packs strokes) in
      let sizes = length-append k rest in
      let (r', e, archive, now, fine') =
        write-owed r a k fine (frame_some d) (omega (arith, small, sizes)) in
      let (r'', e', archive') =
        run-recorded strokes r' a fine'
          (omega (arith, small, sizes, ap length archive, length-append (log r.file) k)) in
      (
        r'',
        ap (λ o. o >>= Loop.run (parts_of (recorded strokes))) e ∙ e',
        archive' ∙ ap (λ b. b ++ rest) archive ∙ append_assoc (log r.file) k rest,
      )

  pub bytes_of-recorded :
      (strokes : List Bytes) → bytes_of (parts_of (recorded strokes)) ≡ map (frame_of z) strokes
  bytes_of-recorded [] = refl
  bytes_of-recorded (d ∷ strokes) =
      ap (λ (ps : List Bytes). frame_of z d ∷ ps) (bytes_of-recorded strokes)
