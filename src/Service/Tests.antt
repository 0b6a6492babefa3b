-- ===== src/Service/Tests.antt =====
-- Examples for the services with one database.
use cs2620_s26_psets.Base.{List, [], ◌∷◌, ◌≡◌, ◌++◌, ◌≢◌, map, arith, refl}
use cs2620_s26_psets.Service.Single.{
  on_round, ServiceEvent, Serves, on_arrival, arrivals, single_run, start_single, single_run-Serves,
  PtSingle, rounds, single_drains,
}
use cs2620_s26_psets.Pancy.Msgs.{Request, get_req, put_req, any_version}
use cs2620_s26_psets.Service.Replica.{
  Behaves, replica_run, initialize, replica_run-Behaves, PtPaxosReplica, redirected_to,
  replica_drains,
}
use cs2620_s26_psets.Netsim.Defs.{Port}
use cs2620_s26_psets.Netsim.Fifo.{payloads}
use cs2620_s26_psets.Pancy.Spec.{answers}
use cs2620_s26_psets.Pancy.Db.{init}

abbrev put_a : Request
put_a = put_req (record { serial = 1; key = 97 ∷ []; value = 98 ∷ []; version_match = any_version })

abbrev get_a : Request
get_a = get_req (record { serial = 2; key = 97 ∷ [] })

abbrev events : List ServiceEvent
events = on_arrival put_a ∷ on_round ∷ on_arrival get_a ∷ on_round ∷ on_arrival get_a ∷ []

single_run-Serves_example : Serves (arrivals events) (single_run events start_single)
single_run-Serves_example = single_run-Serves events

replica_run-Behaves_example : Behaves (arrivals events) 1 2 (replica_run events (initialize 1 2))
replica_run-Behaves_example = replica_run-Behaves 1 2 events

abbrev two_requests : Port Request
two_requests = record { messageq = (put_a, []) ∷ (get_a, []) ∷ [] }

abbrev asked_single : PtSingle
asked_single = record start_single { in_port = two_requests }

single_drains_example :
    (single_run (rounds 2) asked_single).sent ≡ [] ++ answers init (payloads two_requests.messageq)
single_drains_example = single_drains asked_single refl (omega arith)

abbrev asked_replica : PtPaxosReplica
asked_replica = record (initialize 1 1) { from_clients = two_requests }

replica_drains_example :
    let end = replica_run (rounds 2) asked_replica in
    let asked = payloads two_requests.messageq in
    (asked_replica.index ≡ asked_replica.leader_index → end.sent ≡ [] ++ answers init asked)
    × (asked_replica.index ≢ asked_replica.leader_index
        → end.sent ≡ [] ++ map (redirected_to 1) asked)
replica_drains_example = replica_drains asked_replica
