-- ===== src/Room/Messages.antt =====
-- pkg/Room/Requests.go, Responses.go and Actions.go: what clients send to a room and are sent.
use paintty_server_go.Prelude.{ℕ, Bool, List, String}
use paintty_server_go.Prelude.Int.{ℤ}

-- The requests, as json.Unmarshal leaves them, without the field that names the request.
pub record JoinRoomRequest : Type 0 where
  pub password : String
  pub name : String

pub record ArchiveRequest : Type 0 where
  pub start : ℤ
  pub data_length : ℤ

pub record KickRequest : Type 0 where
  pub key : String
  pub client_id : String

-- The handlers that Room.init registers, each with its request. ClearAllRequest, CloseRequest and
-- CheckoutRequest have a key alone, ArchiveSignRequest and OnlineListRequest are not looked at.
pub data Request : Type 0 where
  login : JoinRoomRequest → Request
  heartbeat : ℤ → Request
  archivesign : Request
  archive : ArchiveRequest → Request
  clearall : String → Request
  kick : KickRequest → Request
  onlinelist : Request
  close : String → Request
  checkout : String → Request

pub record SizeInfo : Type 0 where
  pub width : ℤ
  pub height : ℤ

pub record JoinRoomInfo : Type 0 where
  pub name : String
  pub history_size : ℤ
  pub size : SizeInfo
  pub client_id : String

pub record JoinRoomResponse : Type 0 where
  pub result : Bool
  pub room_list : JoinRoomInfo
  pub err_code : ℕ

pub record ArchiveSignResponse : Type 0 where
  pub result : Bool
  pub signature : String
  pub errcode : ℕ

pub record ArchiveResponse : Type 0 where
  pub result : Bool
  pub signature : String
  pub data_length : ℤ
  pub errcode : ℕ

pub record CheckoutResponse : Type 0 where
  pub result : Bool
  pub cycle : ℤ
  pub errcode : ℕ

pub record OnlineListItem : Type 0 where
  pub name : String
  pub client_id : String

-- The actions, by the constant in their field `Action`: what a room tells its clients unasked. The
-- message of WelcomeMsgType has no such field.
pub data Action : Type 0 where
  clearall_action : String → Action
  close_action : ℕ → Action
  kick_action : Action
  notify_action : String → Action
  welcome_msg : String → Action

-- The responses, by the constant in their field `Response`, and the actions.
pub data Response : Type 0 where
  logged_in : JoinRoomResponse → Response
  beat : ℤ → Response
  archive_sign : ArchiveSignResponse → Response
  archive_info : ArchiveResponse → Response
  cleared : Bool → Response
  kicked : Bool → Response
  closed : Bool → Response
  checked_out : CheckoutResponse → Response
  online_list : Bool → List OnlineListItem → Response
  action : Action → Response
