-- ===== src/Client/Scan.antt =====
-- What a search of the queue of responses finds and leaves.
use cs2620_s26_psets.Base.{
  Option, none, some, ◌++◌, ◌≢◌, true, false, ℕ, ◌≡◌, refl, List, [], ◌∷◌, ◌==◌, if◌then◌else◌, ◌%◌,
  Bool-cases, inl, ◌^◌, ==_iff, inr, ap, ◌∙◌,
}
use cs2620_s26_psets.Pancy.Msgs.{
  Response, response_serial, redirection_resp, get_resp, put_resp, cas_resp, remove_resp,
  RedirectionResponse,
}
use cs2620_s26_psets.Client.Defs.{
  ResponseType, search_inq, client_of, SearchResult, still_waiting, classify, get_response,
  put_response, cas_response, remove_response, redirected, unexpected, responded, has_type,
}

-- The serial number of the request that a response answers.
unfoldable pub serial_in : Response → ℕ
serial_in (redirection_resp r) = r.header.serial
serial_in (get_resp r) = r.header.serial
serial_in (put_resp r) = r.header.serial
serial_in (cas_resp r) = r.header.serial
serial_in (remove_resp r) = r.header.serial

-- The responses for other clients: the lowest 12 bits of a serial number are the client.
unfoldable pub for_others : ℕ → List Response → List Response
for_others serial [] = []
for_others serial (m ∷ inq) =
    let rest = for_others serial inq in
    if serial_in m % 2 ^ 12 == serial % 2 ^ 12 then rest else m ∷ rest

-- The responses to the request with that serial number.
unfoldable pub for_serial : ℕ → List Response → List Response
for_serial serial [] = []
for_serial serial (m ∷ inq) =
    let rest = for_serial serial inq in if serial_in m == serial then m ∷ rest else rest

-- The four kinds of answers that are no redirection.
unfoldable pub kind_of : Response → Option ResponseType
kind_of (redirection_resp r) = none
kind_of (get_resp r) = some get_response
kind_of (put_resp r) = some put_response
kind_of (cas_resp r) = some cas_response
kind_of (remove_resp r) = some remove_response

-- What a client that awaits a response of one kind is to be told of a response: the replica that a
-- redirection names; the response, if it is of this kind; and else that it is not.
pub data Tells : ResponseType → Response → SearchResult → Type 0 where
  tells_redirection :
      {ty : ResponseType} (r : RedirectionResponse)
      → Tells ty (redirection_resp r) (redirected r.redirection)
  tells_response :
      {ty : ResponseType} (m : Response) → kind_of m ≡ some ty → Tells ty m (responded m)
  tells_other :
      {ty : ResponseType} (m : Response) (other : ResponseType)
      → kind_of m ≡ some other
      → other ≢ ty
      → Tells ty m unexpected

-- The same for the first response of a list; without one the client goes on waiting.
unfoldable pub TellsFirst : ResponseType → List Response → SearchResult → Type 0
TellsFirst ty [] result = result ≡ still_waiting
TellsFirst ty (m ∷ ms) result = Tells ty m result

-- The queue before and after the first response to that request.
unfoldable pub before_answer : ℕ → List Response → List Response
before_answer serial [] = []
before_answer serial (m ∷ inq) =
    let rest = before_answer serial inq in if serial_in m == serial then [] else m ∷ rest

unfoldable pub after_answer : ℕ → List Response → List Response
after_answer serial [] = []
after_answer serial (m ∷ inq) =
    let rest = after_answer serial inq in if serial_in m == serial then inq else rest

classify-Tells : (ty : ResponseType) (m : Response) → Tells ty m (classify ty m)
unfolding classify has_type kind_of
classify-Tells ty (redirection_resp r) = tells_redirection r
classify-Tells get_response (get_resp r) = tells_response (get_resp r) refl
classify-Tells put_response (get_resp r) = tells_other (get_resp r) get_response refl (λ e. cc)
classify-Tells cas_response (get_resp r) = tells_other (get_resp r) get_response refl (λ e. cc)
classify-Tells remove_response (get_resp r) = tells_other (get_resp r) get_response refl (λ e. cc)
classify-Tells get_response (put_resp r) = tells_other (put_resp r) put_response refl (λ e. cc)
classify-Tells put_response (put_resp r) = tells_response (put_resp r) refl
classify-Tells cas_response (put_resp r) = tells_other (put_resp r) put_response refl (λ e. cc)
classify-Tells remove_response (put_resp r) = tells_other (put_resp r) put_response refl (λ e. cc)
classify-Tells get_response (cas_resp r) = tells_other (cas_resp r) cas_response refl (λ e. cc)
classify-Tells put_response (cas_resp r) = tells_other (cas_resp r) cas_response refl (λ e. cc)
classify-Tells cas_response (cas_resp r) = tells_response (cas_resp r) refl
classify-Tells remove_response (cas_resp r) = tells_other (cas_resp r) cas_response refl (λ e. cc)
classify-Tells get_response (remove_resp r) =
    tells_other (remove_resp r) remove_response refl (λ e. cc)
classify-Tells put_response (remove_resp r) =
    tells_other (remove_resp r) remove_response refl (λ e. cc)
classify-Tells cas_response (remove_resp r) =
    tells_other (remove_resp r) remove_response refl (λ e. cc)
classify-Tells remove_response (remove_resp r) = tells_response (remove_resp r) refl

serial_lem : (m : Response) → response_serial m ≡ serial_in m
unfolding response_serial serial_in
serial_lem (redirection_resp r) = refl
serial_lem (get_resp r) = refl
serial_lem (put_resp r) = refl
serial_lem (cas_resp r) = refl
serial_lem (remove_resp r) = refl

search_answer :
    (ty : ResponseType) (serial : ℕ) (m : Response) (inq : List Response)
    → (serial_in m == serial) ≡ true
    → search_inq ty serial (m ∷ inq) ≡ (inq, classify ty m)
unfolding search_inq
search_answer ty serial m inq e =
    let same : response_serial m ≡ serial = serial_lem m ∙ (==_iff (serial_in m) serial).0 e in
    rw
      (
        search_inq,
        same,
        (==_iff serial serial).1 refl,
        (==_iff (client_of serial) (client_of serial)).1 refl,
      )
      refl

search_own :
    (ty : ResponseType) (serial : ℕ) (m : Response) (inq : List Response)
    → (serial_in m == serial) ≡ false
    → (serial_in m % 2 ^ 12 == serial % 2 ^ 12) ≡ true
    → search_inq ty serial (m ∷ inq) ≡ search_inq ty serial inq
unfolding search_inq
search_own ty serial m inq e f = rw (search_inq, serial_lem m, e, f) refl

search_foreign :
    (ty : ResponseType) (serial : ℕ) (m : Response) (inq : List Response)
    → (serial_in m % 2 ^ 12 == serial % 2 ^ 12) ≡ false
    → search_inq ty serial (m ∷ inq)
      ≡ (m ∷ (search_inq ty serial inq).0, (search_inq ty serial inq).1)
unfolding search_inq
search_foreign ty serial m inq f = rw (search_inq, serial_lem m, f) refl

-- A search reports what the first response in the queue to the request with that serial number
-- tells the client: the replica that a redirection names, the response itself if it is of the type
-- that is awaited, or that it is of another type. It takes that response and, before it, all
-- responses to this client's other requests; it leaves the other clients' responses before it, in
-- order, and everything after it. If there is none it goes on waiting, and has taken all of this
-- client's responses.
pub search_inq_lem :
    (ty : ResponseType) (serial : ℕ) (inq : List Response)
    → let (rest, result) = search_inq ty serial inq in
      TellsFirst ty (for_serial serial inq) result
      × (rest ≡ for_others serial (before_answer serial inq) ++ after_answer serial inq)
      × (for_others serial rest ≡ for_others serial inq)
unfolding search_inq for_others for_serial before_answer after_answer TellsFirst
search_inq_lem ty serial [] = (refl, refl, refl)
search_inq_lem ty serial (m ∷ inq) =
    let (told, left, others) = search_inq_lem ty serial inq in
    elim (Bool-cases (serial_in m == serial)) [
      | inl e ↦
          let client : (serial_in m % 2 ^ 12 == serial % 2 ^ 12) ≡ true =
            (==_iff (serial_in m % 2 ^ 12) (serial % 2 ^ 12)).1
              (ap (λ x. x % 2 ^ 12) ((==_iff (serial_in m) serial).0 e)) in
          rw
            (
              search_answer ty serial m inq e,
              for_serial,
              before_answer,
              after_answer,
              for_others,
              e,
              client,
            )
            (classify-Tells ty m, refl, refl)
      | inr e ↦ elim (Bool-cases (serial_in m % 2 ^ 12 == serial % 2 ^ 12)) [
        | inl f ↦
            rw
              (
                search_own ty serial m inq e f,
                for_serial,
                before_answer,
                after_answer,
                for_others,
                e,
                f,
              )
              (told, left, others)
        | inr f ↦
            rw
              (
                search_foreign ty serial m inq f,
                for_serial,
                before_answer,
                after_answer,
                for_others,
                e,
                f,
              )
              (told, ap (λ t. m ∷ t) left, ap (λ t. m ∷ t) others)
      ]
    ]
