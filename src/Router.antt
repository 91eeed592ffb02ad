-- ===== src/Router.antt =====
-- pkg/Router/Router.go: which handler a message goes to.
use paintty_server_go.Prelude.{List, [], Bytes, Option, none, some, String}
use paintty_server_go.Prelude.Maps.{string_Eq, load, store}

-- What json.Unmarshal makes of a message as an object: none if it refuses it, and otherwise the
-- members that are strings, by their keys.
abbrev pub Unmarshal : Type 0
Unmarshal = Bytes → Option (String → Option String)

pub record Router {ℓ} (H : Type ℓ) : Type ℓ where
  pub key : String
  pub table : List (String × H)

module _ {ℓ} {H : Type ℓ} where
  unfoldable pub make_router : String → Router H
  make_router key = record { key = key; table = [] }

  unfoldable pub register : String → H → Router H → Router H
  register request handler r = record r { table = store request handler r.table }

-- What OnMessage finds: an error, which is Unmarshal's or the recovered panic of the assertion
-- that the member is a string; no handler, which is no error; or the handler to call.
pub data Routed {ℓ} (H : Type ℓ) : Type ℓ where
  fails : Routed H
  ignored : Routed H
  routed : H → Routed H

unfoldable pub on_message {ℓ} : {H : Type ℓ} → Unmarshal → Router H → Bytes → Routed H
on_message unmarshal r message = elim (unmarshal message) [
  | none ↦ fails
  | some member ↦ elim (member r.key) [
    | none ↦ fails
    | some request ↦ elim (load request r.table) [ none ↦ ignored | some h ↦ routed h ]
  ]
]
