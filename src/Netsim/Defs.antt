-- ===== src/Netsim/Defs.antt =====
-- port<T> and channel<T> of pset3/netsim.hh. A port is named by a number; the coroutines that
-- `send_after` leaves waiting are the list of the messages in flight, oldest first, each with the
-- destination version it read. All wait for the same `link_delay_`, so they end in that order.
-- Whether a message is lost is the argument `lost`, for `randomness_.coin_flip(loss_)`.
use cs2620_s26_psets.Base.{
  ℕ, ◌+◌, Bool, Option, none, some, List, [], ◌∷◌, ◌++◌, ◌==◌, if◌then◌else◌,
}
use cs2620_s26_psets.Bytes.{Bytes}

module _ {ℓ} (A : Type ℓ) where
  pub record Port : Type ℓ where
    pub messageq : List (A × Bytes)

  pub record Channel : Type ℓ where
    pub destination : Option ℕ
    pub destination_version : ℕ
    pub source_id : Bytes
    pub in_flight : List (ℕ × A)

module _ {ℓ} {A : Type ℓ} where
  abbrev pub new_port : Port A
  new_port = record { messageq = [] }

  abbrev pub new_channel : Bytes → Channel A
  new_channel source_id = record {
    destination = none;
    destination_version = 0;
    source_id = source_id;
    in_flight = [];
  }

  unfoldable pub connect : ℕ → Channel A → Channel A
  connect port c = record c {
    destination = some port;
    destination_version = c.destination_version + 1;
  }

  unfoldable pub disconnect : Channel A → Channel A
  disconnect c = record c { destination = none; destination_version = c.destination_version + 1 }

  -- `send`: unless the message is lost, `send_after` reads the version and waits.
  unfoldable pub send : Bool → A → Channel A → Channel A
  send lost m c = elim c.destination [
    | none ↦ c
    | some port ↦
        if lost
        then c
        else record c { in_flight = c.in_flight ++ ((c.destination_version, m) ∷ []) }
  ]

  -- The oldest `send_after` goes on: the port and the entry for its queue, unless it is dropped.
  unfoldable pub deliver : Channel A → Channel A × Option (ℕ × (A × Bytes))
  deliver c = elim c.in_flight [
    | [] ↦ (c, none)
    | (version, m) ∷ rest ↦ (
      record c { in_flight = rest },
      elim c.destination [
        | none ↦ none
        | some port ↦
            if version == c.destination_version then some (port, (m, c.source_id)) else none
      ],
    )
  ]

  unfoldable pub enqueue : Port A → A × Bytes → Port A
  enqueue p m = record { messageq = p.messageq ++ (m ∷ []) }

  -- `receive_with_id`, where it returns; on an empty queue it waits.
  unfoldable pub receive_with_id : Port A → Option ((A × Bytes) × Port A)
  receive_with_id p = elim p.messageq [
    | [] ↦ none
    | m ∷ rest ↦ some (m, record { messageq = rest })
  ]

  unfoldable pub receive : Port A → Option (A × Port A)
  receive p = elim (receive_with_id p) [ none ↦ none | some (m, p') ↦ some (m.0, p') ]

-- One channel with the port at its end.
pub record Link {ℓ} (A : Type ℓ) : Type ℓ where
  pub channel : Channel A
  pub port : Port A

module _ {ℓ} {A : Type ℓ} where
  abbrev pub new_link : Bytes → ℕ → Link A
  new_link source_id port = record {
    channel = connect port (new_channel source_id);
    port = new_port;
  }

  unfoldable pub link_send : Bool → A → Link A → Link A
  link_send lost m l = record l { channel = send lost m l.channel }

  unfoldable pub link_deliver : Link A → Link A
  link_deliver l =
      let (c, arriving) = deliver l.channel in
      elim arriving [
        | none ↦ record l { channel = c }
        | some m ↦ record { channel = c; port = enqueue l.port m.1 }
      ]

  unfoldable pub link_receive : Link A → Option (A × Link A)
  link_receive l = elim (receive l.port) [
    | none ↦ none
    | some (m, p) ↦ some (m, record l { port = p })
  ]
