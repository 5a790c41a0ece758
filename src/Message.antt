-- ===== src/Message.antt =====
-- The messages (src/peerboot/message.hpp, src/peerboot/message.cpp). The subclasses of BaseMessage
-- are the constructors of `Message`; the visitor's double dispatch is a match on them.
use peerboot_cpp.Prelude.{ℕ, Bool, ◌==◌, ◌∷◌, ◌++◌, if◌then◌else◌}
use peerboot_cpp.Prelude.Int.{pos}
use peerboot_cpp.Text.{Str, codes}
use peerboot_cpp.Text.Decimal.{to_string}
use peerboot_cpp.Types.{PeerInfo}

pub data MessageType : Type 0 where
  invalid peer_update query : MessageType

pub record PeerUpdateMessage : Type 0 where
  pub created_time : ℕ
  pub service : Str
  pub endpoint : Str
  pub last_seen : ℕ
  pub is_removed : Bool

pub record QueryMessage : Type 0 where
  pub created_time : ℕ
  pub service : Str

pub data Message : Type 0 where
  update : PeerUpdateMessage → Message
  query : QueryMessage → Message

-- BaseMessage's constructor: the creation time 0 stands for the current time.
abbrev pub created : ℕ → ℕ → ℕ
created now created_time = if created_time == 0 then now else created_time

unfoldable pub peer_update_message : ℕ → Str → Str → ℕ → Bool → ℕ → Message
peer_update_message now service endpoint last_seen is_removed created_time = update (record {
  created_time = created now created_time;
  service = service;
  endpoint = endpoint;
  last_seen = last_seen;
  is_removed = is_removed;
})

unfoldable pub peer_info_message : ℕ → PeerInfo → ℕ → Message
peer_info_message now peer created_time = update (record {
  created_time = created now created_time;
  service = peer.service;
  endpoint = peer.endpoint;
  last_seen = peer.last_seen;
  is_removed = peer.is_removed;
})

unfoldable pub query_message : ℕ → Str → ℕ → Message
query_message now service created_time =
    query (record { created_time = created now created_time; service = service })

unfoldable pub get_type : Message → MessageType
get_type (update m) = peer_update
get_type (query m) = MessageType.query

abbrev pub prefix : Str
prefix = codes "PB01"

abbrev pub peer_verb : Str
peer_verb = codes "PEER"

abbrev pub query_verb : Str
query_verb = codes "QUERY"

-- s + " " + t
infixr 64 ◌␣◌
abbrev pub ◌␣◌ : Str → Str → Str
s ␣ t = s ++ b' ' ∷ t

-- The text of a message. The removal flag is no part of it.
unfoldable pub message_text : Message → Str
message_text (update m) = prefix ␣ peer_verb ␣ m.service ␣ m.endpoint ␣ to_string (pos m.last_seen)
message_text (query m) = prefix ␣ query_verb ␣ m.service
