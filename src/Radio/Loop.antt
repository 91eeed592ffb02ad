-- ===== src/Radio/Loop.antt =====
-- Radio.run: what the radio does with the parts that its channels give it, in the order in which its
-- select takes them.
use paintty_server_go.Prelude.{ℕ, Bool, List, [], ◌∷◌, Bytes, if◌then◌else◌}
use paintty_server_go.Radio.{Radio, Outcome, done, blocks, ◌>>=◌, send, single_send, write}

-- A part of SendChan, SingleSendChan (with whether its client takes the bytes) or WriteChan, or the
-- end: GoingClose is closed, or one of the others is.
pub data Part : Type 0 where
  send_part : Bytes → Part
  single_send_part : Bool → Bytes → ℕ → Part
  write_part : Bytes → Part
  closing : Part

-- A single send whose client does not take the bytes leaves the lock held by run itself, which waits for
-- it for ever.
unfoldable pub run : List Part → Radio → Outcome Radio
run [] r = done r
run (send_part d ∷ parts) r = send r d >>= run parts
run (single_send_part taken d client ∷ parts) r =
    single_send taken r d client >>= λ r'. if r'.locked then blocks else run parts r'
run (write_part d ∷ parts) r = write r d >>= run parts
run (closing ∷ parts) r = done r
