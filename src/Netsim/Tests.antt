-- ===== src/Netsim/Tests.antt =====
-- Examples for the network simulator.
use cs2620_s26_psets.Base.{ℕ, ◌≡◌, true, false, List, [], ◌∷◌, ◌++◌}
use cs2620_s26_psets.Netsim.Order.{
  Event, transfer, sending, arriving, kept, receiving, transfer-pending,
}
use cs2620_s26_psets.Netsim.Defs.{new_link}
use cs2620_s26_psets.Netsim.Fifo.{pending, new_link-IsConnected}

abbrev events : List (Event ℕ)
events = sending false 7 ∷ sending true 8 ∷ arriving ∷ sending false 9 ∷ receiving ∷ []

transfer-pending_example :
    (transfer events (new_link [] 0)).0 ++ pending (transfer events (new_link [] 0)).1
    ≡ pending (new_link [] 0) ++ kept events
transfer-pending_example = transfer-pending events (new_link [] 0) (new_link-IsConnected [] 0)
