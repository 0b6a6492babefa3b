-- ===== src/Consensus/Msgs.antt =====
-- pset2/ctconsensus_msgs.hh: the messages between servers.
use cs2620_s26_psets.Base.{ℕ, Bool, true, false, []}
use cs2620_s26_psets.Bytes.{Bytes}

pub data MessageType : Type 0 where
  m_prepare m_propose m_ack m_decide : MessageType

-- `sender` is history: the source of the link that carried the message. No server reads it.
pub record Message : Type 0 where
  pub sender : ℕ
  pub type : MessageType
  pub round : ℕ
  pub color : Bytes
  pub color_round : ℕ
  pub ack : Bool

abbrev pub prepare_message : ℕ → Bytes → ℕ → Message
prepare_message round color color_round = record {
  sender = 0;
  type = m_prepare;
  round = round;
  color = color;
  color_round = color_round;
  ack = false;
}

abbrev pub propose_message : ℕ → Bytes → Message
propose_message round color = record {
  sender = 0;
  type = m_propose;
  round = round;
  color = color;
  color_round = 0;
  ack = false;
}

abbrev pub ack_message : ℕ → Bool → Message
ack_message round ack = record {
  sender = 0;
  type = m_ack;
  round = round;
  color = [];
  color_round = 0;
  ack = ack;
}

abbrev pub decide_message : Bytes → Message
decide_message color = record {
  sender = 0;
  type = m_decide;
  round = 0;
  color = color;
  color_round = 0;
  ack = false;
}

abbrev pub is_decide : MessageType → Bool
is_decide m_prepare = false
is_decide m_propose = false
is_decide m_ack = false
is_decide m_decide = true

abbrev pub same_type : MessageType → MessageType → Bool
same_type m_prepare m_prepare = true
same_type m_prepare m_propose = false
same_type m_prepare m_ack = false
same_type m_prepare m_decide = false
same_type m_propose m_prepare = false
same_type m_propose m_propose = true
same_type m_propose m_ack = false
same_type m_propose m_decide = false
same_type m_ack m_prepare = false
same_type m_ack m_propose = false
same_type m_ack m_ack = true
same_type m_ack m_decide = false
same_type m_decide m_prepare = false
same_type m_decide m_propose = false
same_type m_decide m_ack = false
same_type m_decide m_decide = true

-- Where a message goes: to a server, or to the observer Nancy.
pub data Destination : Type 0 where
  to_server : ℕ → Destination
  to_nancy : Destination

abbrev pub Sent : Type 0
Sent = Destination × Message
