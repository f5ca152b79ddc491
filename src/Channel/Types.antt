-- ===== src/Channel/Types.antt =====
-- internal/domain/channel/model.go and redismodel.go: the records.
use zmux_server.Base.{ℕ, Bool, List, Option, Bytes}
use zmux_server.Base.Int.{ℤ}

-- `ZmuxChannelInput`
pub record Input : Type 0 where
  pub url : Option Bytes
  pub username : Option Bytes
  pub password : Option Bytes
  pub avioflags : Option Bytes
  pub probesize : ℕ
  pub analyzeduration : ℕ
  pub fflags : Option Bytes
  pub max_delay : ℤ
  pub localaddr : Option Bytes
  pub timeout : ℕ
  pub rtsp_transport : Option Bytes

-- A nil mapping is the empty one.
abbrev pub StreamMapping : Type 0
StreamMapping = List Bytes

-- `ZmuxChannelOutput`
pub record Output : Type 0 where
  pub ref : Bytes
  pub url : Option Bytes
  pub localaddr : Option Bytes
  pub pkt_size : ℕ
  pub stream_mapping : StreamMapping
  pub enabled : Bool

-- `ZmuxChannel`
pub record Channel : Type 0 where
  pub id : ℕ
  pub interactive : Bool
  pub b2b_client_id : Option ℕ
  pub name : Option Bytes
  pub input : Input
  pub outputs : List Output
  pub enabled : Bool
  pub restart_sec : ℕ

-- `ZmuxChannelModel`, the stored form; a nil slice of outputs, which is stored as `null`, is `none`.
pub record ChannelModel : Type 0 where
  pub b2b_client_id : Option ℕ
  pub name : Option Bytes
  pub input : Input
  pub outputs : Option (List Output)
  pub enabled : Bool
  pub restart_sec : ℕ
