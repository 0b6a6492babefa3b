-- ===== src/Client/Defs.antt =====
-- client_model of pset3/client_model.hh and pset3/client_model.cc: the queue of responses that all
-- clients share, `receive_task`, which fills it, and `receive_response`, which searches it.
-- The lowest 12 bits of a serial number are the client's number.
use cs2620_s26_psets.Base.{
  ℕ, ◌%◌, Bool, true, false, not, List, [], ◌∷◌, ◌++◌, leb, ◌==◌, if◌then◌else◌,
}
use cs2620_s26_psets.Pancy.Msgs.{
  redirection_resp, get_resp, put_resp, cas_resp, remove_resp, Response, response_serial,
}

abbrev pub max_clients : ℕ
max_clients = 4096

abbrev pub serial_step : ℕ
serial_step = 4096

-- `serial & client_mask()`.
abbrev pub client_of : ℕ → ℕ
client_of serial = serial % max_clients

-- The template argument of `receive_response`.
pub data ResponseType : Type 0 where
  get_response put_response cas_response remove_response : ResponseType

unfoldable pub has_type : ResponseType → Response → Bool
has_type get_response (get_resp r) = true
has_type put_response (put_resp r) = true
has_type cas_response (cas_resp r) = true
has_type remove_response (remove_resp r) = true
has_type get_response (redirection_resp r) = false
has_type get_response (put_resp r) = false
has_type get_response (cas_resp r) = false
has_type get_response (remove_resp r) = false
has_type put_response (redirection_resp r) = false
has_type put_response (get_resp r) = false
has_type put_response (cas_resp r) = false
has_type put_response (remove_resp r) = false
has_type cas_response (redirection_resp r) = false
has_type cas_response (get_resp r) = false
has_type cas_response (put_resp r) = false
has_type cas_response (remove_resp r) = false
has_type remove_response (redirection_resp r) = false
has_type remove_response (get_resp r) = false
has_type remove_response (put_resp r) = false
has_type remove_response (cas_resp r) = false

-- What a search of the queue comes to: nothing yet, so the client waits; nullopt, with the replica
-- to turn to if it is a redirection; or the response.
pub data SearchResult : Type 0 where
  still_waiting : SearchResult
  redirected : ℕ → SearchResult
  unexpected : SearchResult
  responded : Response → SearchResult

unfoldable pub classify : ResponseType → Response → SearchResult
classify ty (redirection_resp r) = redirected r.redirection
classify ty (get_resp r) = if has_type ty (get_resp r) then responded (get_resp r) else unexpected
classify ty (put_resp r) = if has_type ty (put_resp r) then responded (put_resp r) else unexpected
classify ty (cas_resp r) = if has_type ty (cas_resp r) then responded (cas_resp r) else unexpected
classify ty (remove_resp r) =
    if has_type ty (remove_resp r) then responded (remove_resp r) else unexpected

-- The search of `receive_response`: the queue that is left, and the result.
unfoldable pub search_inq : ResponseType → ℕ → List Response → List Response × SearchResult
search_inq ty serial [] = ([], still_waiting)
search_inq ty serial (m ∷ inq) =
    let (rest, result) = search_inq ty serial inq in
    if not (client_of (response_serial m) == client_of serial)
    then (m ∷ rest, result)
    else if not (response_serial m == serial)
    then (rest, result)
    else (inq, classify ty m)

-- `replicaid` after `receive_response`.
unfoldable pub next_replica : ℕ → SearchResult → ℕ
next_replica replicaid still_waiting = replicaid
next_replica replicaid (redirected r) = r
next_replica replicaid unexpected = replicaid
next_replica replicaid (responded m) = replicaid

-- One round of `receive_task`, with `nclients` the number of clients.
unfoldable pub receive_task : ℕ → Response → List Response → List Response
receive_task nclients msg inq =
    if leb nclients (client_of (response_serial msg)) then inq else inq ++ (msg ∷ [])
