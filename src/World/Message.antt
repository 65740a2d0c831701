-- ===== src/World/Message.antt =====
-- What the handlers send: the JSON of a response, the events published to Redis and the events
-- written to Kafka.
use pairly.Prelude.{ℕ, String, Bool, Option, none, some, List}
use pairly.Postgres.Schema.{Role, File}
use pairly.Mongo.Documents.{Bytes}
use pairly.World.Env.{Env}

-- fileResponse's gin.H
pub record FileResponse : Type 0 where
  pub id : ℕ
  pub room_id : ℕ
  pub name : String
  pub language : String
  pub parent_id : Option ℕ
  pub is_folder : Bool
  pub is_active : Bool
  pub created_by : ℕ
  pub created_at : String
  pub updated_at : String

module _ (env : Env) where
  unfoldable pub updated_at_str : File → String
  updated_at_str f = elim f.updated_at [ none ↦ "" | some t ↦ env.format_time t ]

  unfoldable pub file_response : File → FileResponse
  unfolding updated_at_str
  file_response f = record {
    id = f.id;
    room_id = f.room_id;
    name = f.name;
    language = f.language;
    parent_id = f.parent_id;
    is_folder = f.is_folder;
    is_active = f.is_active;
    created_by = f.created_by;
    created_at = env.format_time f.created_at;
    updated_at = updated_at_str f;
  }

-- "room:" + roomID + ":room", "user:" + userID + ":notify" and "room:" + roomID + ":file:" + fileID
pub data Channel : Type 0 where
  room_channel notify_channel : ℕ → Channel
  file_channel : ℕ → ℕ → Channel

-- An event by its "type", with its other fields in the order of the source.
pub data Event : Type 0 where
  room_deleted : Event
  room_renamed : String → Event
  member_left removed : ℕ → Event
  role_changed : ℕ → String → Event
  files_updated : List FileResponse → Event
  notify_room_deleted notify_room_renamed : ℕ → String → Event
  room_invited : ℕ → String → String → Event
  execution_error : ℕ → String → Event
  executing : ℕ → ℕ → ℕ → Event
  execution_done : ℕ → ℕ → Option ℕ → ℕ → Bytes → Bool → Event
  -- a message of a client, passed on as it is
  raw : Bytes → Event

pub record Published : Type 0 where
  pub channel : Channel
  pub event : Event

-- kafka.EditEvent
pub record EditEvent : Type 0 where
  pub room_id : ℕ
  pub file_id : ℕ
  pub user_id : ℕ
  pub yjs_blob : Bytes
  pub version : ℕ
  pub saved_at : ℕ

pub record RoomResponse : Type 0 where
  pub id : ℕ
  pub name : String
  pub owner_id : ℕ
  pub role : Role
  pub created_at : String

pub record MemberResponse : Type 0 where
  pub user_id : ℕ
  pub email : String
  pub name : String
  pub role : Role

pub record HistoryEntry : Type 0 where
  pub version : ℕ
  pub saved_at : ℕ
  pub user_id : ℕ

pub record ExecutionResponse : Type 0 where
  pub output : Bytes
  pub exit_code : Option ℕ
  pub duration_ms : ℕ
  pub truncated : Bool
  pub executed_at : ℕ

pub data Body : Type 0 where
  no_content binding_error : Body
  error message : String → Body
  room_created : RoomResponse → ℕ → Body
  rooms : List RoomResponse → Body
  role_and_name : Role → String → Body
  room_renamed : String → Body
  -- the user's id, email and name, and the role
  member_added : ℕ → String → String → String → Body
  members : List MemberResponse → Body
  role_updated : String → Body
  file : FileResponse → Body
  files : List FileResponse → Body
  state : Bytes → Body
  history : List HistoryEntry → Body
  version_text : ℕ → String → Body
  execution : ExecutionResponse → Body
  -- an account: id, email, name, and when it was made, which Me leaves out
  user : ℕ → String → String → Option String → Body
  -- the Location of a redirect
  redirect : String → Body

pub record Response : Type 0 where
  pub status : ℕ
  pub body : Body

abbrev pub respond : ℕ → Body → Response
respond status body = record { status = status; body = body }
