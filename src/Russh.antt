-- ===== src/Russh.antt =====
-- What the transport sees of the crates `russh` and `russh-sftp`, which are not in this repository:
-- the calls that ssh-transport/src/lib.rs makes of them, and their replies, which are parameters.
-- An object of theirs (a connection, a channel, an SFTP session, an open file) is known by a
-- number; the two halves of a split channel keep the channel's number.
use rust_core.Base.{ℕ, Bool, Option, List, Text}

-- `ChannelMsg`: what a channel delivers. `unrelated` stands for the variants that no loop names.
pub data ChannelMsg : Type 0 where
  channel_data extended_data : List ℕ → ChannelMsg
  exit_status : ℕ → ChannelMsg
  channel_eof channel_close unrelated : ChannelMsg

-- What `wait` returns from now on: `late` messages come more than 300 ms after the one before.
-- `ended` is the `None` of a dead transport, and `silent` a link on which nothing comes any more.
pub data Stream : Type 0 where
  arrival : (late : Bool) → ChannelMsg → Stream → Stream
  ended silent : Stream

-- `russh::Error`, by the two variants that the code matches; a kind and any other error are numbers.
pub data RusshError : Type 0 where
  unknown_key : RusshError
  no_common_algo : (kind : ℕ) → RusshError
  other : ℕ → RusshError

pub record OpenFlags : Type 0 where
  pub read : Bool
  pub write : Bool
  pub create : Bool
  pub truncate : Bool

pub record Config : Type 0 where
  pub keepalive_interval : Option ℕ
  pub inactivity_timeout : Option ℕ

-- The calls, each with the object that it goes to and its arguments. `verify` is russh's call of
-- the key check, with the verifier's answer; the two `spawn` entries start a task.
pub data Call : Type 0 where
  connect : Config → (host : Text) → (port : ℕ) → Call
  connect_stream : Config → (stream : ℕ) → Call
  verify : (host : Text) → (port : ℕ) → (algorithm : Text) → (blob : List ℕ) → Bool → Call
  authenticate_password : (handle : ℕ) → (user : Text) → (password : Text) → Call
  authenticate_publickey : (handle : ℕ) → (user : Text) → (key : ℕ) → Call
  channel_open_session : (handle : ℕ) → Call
  channel_open_direct_tcpip :
      (handle : ℕ) → Text → (port : ℕ) → (origin : Text) → (origin_port : ℕ) → Call
  tcpip_forward cancel_tcpip_forward : (handle : ℕ) → Text → (port : ℕ) → Call
  disconnect : (handle : ℕ) → (description : Text) → (language : Text) → Call
  exec : (channel : ℕ) → (want_reply : Bool) → Text → Call
  request_pty : (channel : ℕ) → (want_reply : Bool) → Text → (cols rows : ℕ) → Call
  request_shell : (channel : ℕ) → (want_reply : Bool) → Call
  request_subsystem : (channel : ℕ) → (want_reply : Bool) → Text → Call
  data_bytes : (channel : ℕ) → List ℕ → Call
  window_change : (channel : ℕ) → (cols rows : ℕ) → Call
  eof close accept_open : (channel : ℕ) → Call
  sftp_session : (channel : ℕ) → Call
  sftp_read sftp_remove_file sftp_remove_dir sftp_create_dir : (session : ℕ) → Text → Call
  sftp_metadata sftp_read_dir sftp_read_link sftp_canonicalize : (session : ℕ) → Text → Call
  sftp_rename : (session : ℕ) → Text → Text → Call
  open_with_flags : (session : ℕ) → Text → OpenFlags → Call
  file_read : (file : ℕ) → (room : ℕ) → Call
  file_write_all : (file : ℕ) → List ℕ → Call
  file_seek : (file : ℕ) → (offset : ℕ) → Call
  file_close : (file : ℕ) → Call
  spawn_dispatch : Call
  spawn_pump : (channel : ℕ) → Call

-- A call of a spawned task, which drops its result: awaited without limit, or for some seconds.
pub data Step : Type 0 where
  plain : Call → Step
  within : (seconds : ℕ) → Call → Step

-- All calls so far, the newest first.
abbrev pub History : Type 0
History = List Call

-- The reply of a call: a value, an error, or none ever.
pub data Reply (E A : Type 0) : Type 0 where
  done : A → Reply E A
  failed : E → Reply E A
  hangs : Reply E A

-- A host key or certificate, as its methods show it: its algorithm and `to_bytes`, which can fail.
pub data HostKey : Type 0 where
  public_key certificate : (algorithm : Text) → (encoded : Option (List ℕ)) → HostKey

-- A `SystemTime`: nanoseconds after or before the Unix epoch.
pub data SystemTime : Type 0 where
  after_epoch before_epoch : ℕ → SystemTime

-- `Metadata` of russh-sftp, as its methods show it.
pub record Metadata : Type 0 where
  pub len : ℕ
  pub is_dir : Bool
  pub is_file : Bool
  pub is_symlink : Bool
  pub modified : Option SystemTime
  pub permissions : Option ℕ

-- An entry of a directory.
pub record DirEntry : Type 0 where
  pub file_name : Text
  pub metadata : Metadata

-- The replies, as functions of the calls made before: nothing else is assumed of the network.
pub record Russh : Type 0 where
  pub opens : History → Call → Reply RusshError ℕ
  pub acknowledges : History → Call → Reply RusshError (Unit {0})
  pub authenticates : History → Call → Reply RusshError Bool
  pub decode_secret_key : Text → Option Text → Reply Text ℕ
  pub incoming : History → (channel : ℕ) → Stream
  pub error_text : RusshError → Text
  pub kind_debug : ℕ → Text
  pub verifies : History → Text → ℕ → Text → List ℕ → Bool
  pub sha256 : List ℕ → List ℕ

-- The replies of the SFTP client; an error is its message.
pub record RusshSftp : Type 0 where
  pub opens : History → Call → Reply Text ℕ
  pub acknowledges : History → Call → Reply Text (Unit {0})
  pub reads : History → Call → Reply Text (List ℕ)
  pub links : History → Call → Reply Text Text
  pub stats : History → Call → Reply Text Metadata
  pub lists : History → Call → Reply Text (List DirEntry)
