-- ===== src/Room/Picture.antt =====
-- A newcomer to a room: the archive and all that is drawn later, as packages, when the goroutines of
-- the radio overtake each other.
mod Runs
use paintty_server_go.Prelude.{◌+◌, refl, List, ◌∷◌, Option, Error, append_assoc}
use paintty_server_go.Socket.Reader.RoundTrip.{Pack, frame}
use paintty_server_go.Socket.Pack.{drawing}
use paintty_server_go.Radio.{Radio}
use paintty_server_go.Radio.Owed.{owed}
use paintty_server_go.Room.{Room}
