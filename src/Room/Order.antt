-- ===== src/Room/Order.antt =====
-- From one painter to another: the strokes of a user go through its connection, the room and the
-- room's radio to the connection of another client. The server handles the packages in goroutines of
-- their own (the go statement of OnData in pkg/Socket/SocketReader.go) and the radio hands them over in
-- goroutines of their own, in whatever order these run.
mod Runs
use mathlib.Core.List.{Permᴰ}
use paintty_server_go.Prelude.{List}
use paintty_server_go.Radio.{Radio}
use paintty_server_go.Radio.Loop
use paintty_server_go.Room.{Room}
