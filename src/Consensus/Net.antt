-- ===== src/Consensus/Net.antt =====
-- The servers of pset2/ctconsensus.cc on their network. A message in flight may be delivered at any
-- time, in any order; that includes the order of the queues of pset2/netsim.hh.
use cs2620_s26_psets.Base.{
  ℕ, zero, suc, false, none, some, List, [], ◌∷◌, ◌++◌, ◌==◌, if◌then◌else◌, get_elem?, ltb, ◌&&◌,
}
use cs2620_s26_psets.Consensus.Msgs.{to_nancy, to_server, Sent, Message}
use cs2620_s26_psets.Consensus.Server.{
  finished, Server, from_network, start_round, from_stash, failure,
}
use cs2620_s26_psets.Bytes.{Bytes}

pub record System : Type 0 where
  pub size : ℕ
  pub servers : ℕ → Server
  pub in_flight : List Sent
  pub to_observer : List Message

-- `server(id, N, net, color)`, and the start of its consensus().
unfoldable pub new_server : ℕ → ℕ → Bytes → Server × List Sent
new_server id n color = start_round (record {
  id = id;
  n = n;
  color = color;
  round = 1;
  color_round = 0;
  stash = [];
  decided = false;
  phase = finished;
  stash_size = 0;
  counted = [];
  voted = [];
  proposed = [];
})

-- `net_.link(id, _).send(_)`: the link has its source.
unfoldable pub from_sender : ℕ → List Sent → List Sent
from_sender i [] = []
from_sender i ((to, m) ∷ sent) = (to, record m { sender = i }) ∷ from_sender i sent

unfoldable pub first_messages : ℕ → ℕ → (ℕ → Bytes) → List Sent
first_messages zero n colors = []
first_messages (suc count) n colors =
    first_messages count n colors ++ from_sender count (new_server count n (colors count)).1

unfoldable pub start_system : ℕ → (ℕ → Bytes) → System
start_system n colors = record {
  size = n;
  servers = λ i. (new_server i n (colors i)).0;
  in_flight = first_messages n n colors;
  to_observer = [];
}

-- Server i has done something.
unfoldable pub set_server : ℕ → Server × List Sent → System → System
set_server i (s, sent) y = record y {
  servers = λ j. if j == i then s else y.servers j;
  in_flight = y.in_flight ++ from_sender i sent;
}

unfoldable pub remove_at {ℓ} : {A : Type ℓ} → List A → ℕ → List A
remove_at [] k = []
remove_at (x ∷ xs) zero = xs
remove_at (x ∷ xs) (suc k) = x ∷ remove_at xs k

-- A message in flight is received, unless its server still goes through its stash.
unfoldable pub receive_message : ℕ → Sent → System → System
receive_message k (to_nancy, m) y = record y {
  in_flight = remove_at y.in_flight k;
  to_observer = y.to_observer ++ (m ∷ []);
}
receive_message k (to_server i, m) y =
    let y' = record y { in_flight = remove_at y.in_flight k } in
    let after = set_server i (from_network m (y.servers i)) y' in
    if (y.servers i).stash_size == 0 then after else y

pub data ConsensusEvent : Type 0 where
  on_message on_stash on_failure : ℕ → ConsensusEvent

unfoldable pub consensus_step : ConsensusEvent → System → System
consensus_step (on_message k) y = elim (get_elem? y.in_flight k) [
  | none ↦ y
  | some o ↦ receive_message k o y
]
consensus_step (on_stash i) y =
    let after = set_server i (from_stash (y.servers i)) y in if ltb i y.size then after else y
consensus_step (on_failure i) y =
    let after = set_server i (failure (y.servers i)) y in
    if ltb i y.size && (y.servers i).stash_size == 0 then after else y

unfoldable pub consensus_run : List ConsensusEvent → System → System
consensus_run [] y = y
consensus_run (e ∷ es) y = consensus_run es (consensus_step e y)
