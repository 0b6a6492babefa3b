-- ===== src/Client/Tests.antt =====
-- Examples for the clients' queue of responses: a stale response, one for another client, and the
-- one looked for.
use cs2620_s26_psets.Base.{ℕ, ◌≡◌, refl, List, [], ◌∷◌, ◌++◌}
use cs2620_s26_psets.Client.Defs.{put_response, responded, search_inq, classify, has_type}
use cs2620_s26_psets.Pancy.Msgs.{Response, response_serial, put_resp, response_header, ok}
use cs2620_s26_psets.Client.Scan.{
  for_others, for_serial, search_inq_lem, TellsFirst, before_answer, after_answer,
}

abbrev answer : ℕ → Response
answer serial =
    put_resp (record {
      header = response_header serial ok;
      actual = [];
      previous_version = 0;
      version = 1;
    })

abbrev inq : List Response
inq = answer 4097 ∷ answer 4098 ∷ answer 8193 ∷ []

search_inq_lem_example :
    let (rest, result) = search_inq put_response 8193 inq in
    TellsFirst put_response (for_serial 8193 inq) result
    × (rest ≡ for_others 8193 (before_answer 8193 inq) ++ after_answer 8193 inq)
    × (for_others 8193 rest ≡ for_others 8193 inq)
search_inq_lem_example = search_inq_lem put_response 8193 inq

found : search_inq put_response 8193 inq ≡ (answer 4098 ∷ [], responded (answer 8193))
unfolding search_inq response_serial classify has_type
found = refl
