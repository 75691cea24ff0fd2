-- ===== src/Proto/Remote.antt =====
-- The messages of the session port.
use atv.Base.{ℕ, Bool, Option, none, List, []}

pub record RemoteDeviceInfo : Type 0 where
  pub model : List ℕ
  pub vendor : List ℕ
  pub unknown1 : ℕ
  pub unknown2 : List ℕ
  pub package_name : List ℕ
  pub app_version : List ℕ

pub record RemoteConfigure : Type 0 where
  pub code1 : ℕ
  pub device_info : Option RemoteDeviceInfo

pub record RemoteSetActive : Type 0 where
  pub active : ℕ

-- The message nested in it stays encoded.
pub record RemoteError : Type 0 where
  pub value : Bool
  pub message : Option (List ℕ)

pub record RemotePingRequest : Type 0 where
  pub val1 : ℕ
  pub val2 : ℕ

pub record RemotePingResponse : Type 0 where
  pub val1 : ℕ

pub record RemoteKeyInject : Type 0 where
  pub key_code : ℕ
  pub direction : ℕ

pub record RemoteStart : Type 0 where
  pub started : Bool

pub record RemoteAppLinkLaunchRequest : Type 0 where
  pub app_link : List ℕ

-- `unread` is the encoding of the ten fields that the client neither reads nor sets.
pub record RemoteMessage : Type 0 where
  pub remote_configure : Option RemoteConfigure
  pub remote_set_active : Option RemoteSetActive
  pub remote_error : Option RemoteError
  pub remote_ping_request : Option RemotePingRequest
  pub remote_ping_response : Option RemotePingResponse
  pub remote_key_inject : Option RemoteKeyInject
  pub remote_start : Option RemoteStart
  pub remote_app_link_launch_request : Option RemoteAppLinkLaunchRequest
  pub unread : List ℕ

-- `RemoteMessage::default()`
abbrev pub default : RemoteMessage
default = record {
  remote_configure = none;
  remote_set_active = none;
  remote_error = none;
  remote_ping_request = none;
  remote_ping_response = none;
  remote_key_inject = none;
  remote_start = none;
  remote_app_link_launch_request = none;
  unread = [];
}
