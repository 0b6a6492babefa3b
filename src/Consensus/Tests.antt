-- ===== src/Consensus/Tests.antt =====
-- Examples for the consensus: three servers, of which server 1 leads the first round. Messages are
-- delivered oldest first until Nancy has heard from it.
use cs2620_s26_psets.Consensus.Nancy
use cs2620_s26_psets.Bytes.{str_eq}
use cs2620_s26_psets.Base.{
  ℕ, zero, suc, ◌≡◌, refl, ◌⊎◌, inl, inr, List, [], ◌∷◌, ◌++◌, ◌==◌, if◌then◌else◌, Bool-cases,
  length, All, true, ◌≤◌, arith,
}
use cs2620_s26_psets.Bytes.{Bytes}
use cs2620_s26_psets.Consensus.Net.{
  consensus_step, set_server, first_messages, new_server, receive_message, remove_at, from_sender,
}
use cs2620_s26_psets.Consensus.Server.{start_round, from_network, from_stash, to_all, to_others}
use cs2620_s26_psets.Consensus.Msgs.{m_decide, Message, decide_message}
use cs2620_s26_psets.Consensus.Colors.{consensus_validity}
use cs2620_s26_psets.Consensus.Once.{counts_now, k_ack, occurrences}
use cs2620_s26_psets.Consensus.Net.{
  ConsensusEvent, System, consensus_run, start_system, on_message, on_stash,
}
use cs2620_s26_psets.Consensus.Nancy.{
  IsAgreed, nancy_approves, nancy_run, nancy_approves-IsAgreed, nancy_take, is_unexpected,
  start_nancy,
}
use cs2620_s26_psets.Consensus.Counts.{number_counted, counts_once}
use cs2620_s26_psets.Consensus.Agreement.{IsDecision, consensus_agreement}

abbrev red : Bytes
red = 114 ∷ []

abbrev blue : Bytes
blue = 98 ∷ []

abbrev colors : ℕ → Bytes
colors i = if i == 0 then red else blue

abbrev deliveries : ℕ → List ConsensusEvent
deliveries zero = []
deliveries (suc count) = on_message 0 ∷ deliveries count

-- The leader goes through its stash for every call of `receive`.
abbrev events : List ConsensusEvent
events = deliveries 5 ++ (on_stash 1 ∷ deliveries 2 ++ (on_stash 1 ∷ deliveries 7))

abbrev end_system : System
end_system = consensus_run events (start_system 3 colors)

colors_valid : (i : ℕ) → (colors i ≡ red) ⊎ (colors i ≡ blue)
colors_valid i = elim (Bool-cases (i == 0)) [ inl e ↦ rw e (inl refl) | inr e ↦ rw e (inr refl) ]

consensus_validity_example :
    ((i : ℕ) → ((end_system.servers i).color ≡ red) ⊎ ((end_system.servers i).color ≡ blue))
    × All (λ m. m.type ≡ m_decide → (m.color ≡ red) ⊎ (m.color ≡ blue)) end_system.to_observer
consensus_validity_example =
    consensus_validity (λ c. (c ≡ red) ⊎ (c ≡ blue)) 3 colors events colors_valid

decided_once : length end_system.to_observer ≡ 1
unfolding consensus_run consensus_step set_server start_system first_messages new_server start_round
    receive_message remove_at from_network from_stash to_all to_others from_sender
decided_once = refl

server_decides : IsDecision 3 end_system blue
unfolding consensus_run consensus_step set_server start_system first_messages new_server start_round
    receive_message remove_at from_network from_stash to_all to_others from_sender IsDecision
server_decides = inl (1, omega arith, refl, refl)

nancy_hears : IsDecision 3 end_system blue
unfolding consensus_run consensus_step set_server start_system first_messages new_server start_round
    receive_message remove_at from_network from_stash to_all to_others from_sender IsDecision
nancy_hears = inr (0, record (decide_message blue) { round = 0; sender = 1 }, refl, refl, refl)

consensus_agreement_example : blue ≡ blue
consensus_agreement_example =
    consensus_agreement 3 colors events blue blue server_decides nancy_hears

abbrev decisions : List Message
decisions = decide_message Nancy.red ∷ decide_message Nancy.red ∷ []

approved : nancy_approves 3 (nancy_run 3 [] decisions start_nancy) ≡ true
unfolding nancy_approves nancy_run nancy_take is_unexpected str_eq
approved = refl

nancy_approves-IsAgreed_example : (color : Bytes) × IsAgreed 3 [] color decisions
nancy_approves-IsAgreed_example = nancy_approves-IsAgreed 3 [] decisions approved

-- Server 1 has counted an ACK of its own.
abbrev part_events : List ConsensusEvent
part_events = deliveries 5 ++ (on_stash 1 ∷ deliveries 2 ++ (on_stash 1 ∷ []))

part_counts :
    counts_now k_ack ((consensus_run part_events (start_system 3 colors)).servers 1).phase ≡ true
unfolding consensus_run consensus_step set_server start_system first_messages new_server start_round
    receive_message remove_at from_network from_stash to_all to_others from_sender
part_counts = refl

counts_once_example :
    let s = (consensus_run part_events (start_system 3 colors)).servers 1 in
    (length s.counted ≡ number_counted s.phase) × ((i : ℕ) → occurrences i s.counted ≤ 1)
counts_once_example = counts_once 3 colors part_events 1 k_ack part_counts
