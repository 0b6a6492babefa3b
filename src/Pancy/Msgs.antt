-- ===== src/Pancy/Msgs.antt =====
-- pset3/pancy_msgs.hh: the requests and responses of a Pancy service. Serial numbers and versions
-- are numbers; a `version_match` is an integer, since any negative one matches every version.
use cs2620_s26_psets.Base.{ℕ, ℤ, negsuc}
use cs2620_s26_psets.Bytes.{Bytes}

abbrev pub nonexistent_version : ℕ
nonexistent_version = 0

abbrev pub any_version : ℤ
any_version = negsuc 0

pub data Errc : Type 0 where
  ok not_found no_match redirect : Errc

pub record ResponseBase : Type 0 where
  pub serial : ℕ
  pub errcode : Errc

pub record GetRequest : Type 0 where
  pub serial : ℕ
  pub key : Bytes

pub record PutRequest : Type 0 where
  pub serial : ℕ
  pub key : Bytes
  pub value : Bytes
  pub version_match : ℤ

pub record CasRequest : Type 0 where
  pub serial : ℕ
  pub key : Bytes
  pub expected : Bytes
  pub desired : Bytes
  pub version_match : ℤ

pub record RemoveRequest : Type 0 where
  pub serial : ℕ
  pub key : Bytes
  pub version_match : ℤ

pub record GetResponse : Type 0 where
  pub header : ResponseBase
  pub value : Bytes
  pub version : ℕ

-- put_response, cas_response and remove_response have the same fields.
pub record ModResponse : Type 0 where
  pub header : ResponseBase
  pub actual : Bytes
  pub previous_version : ℕ
  pub version : ℕ

pub record RedirectionResponse : Type 0 where
  pub header : ResponseBase
  pub redirection : ℕ

pub data Request : Type 0 where
  get_req : GetRequest → Request
  put_req : PutRequest → Request
  cas_req : CasRequest → Request
  remove_req : RemoveRequest → Request

pub data Response : Type 0 where
  redirection_resp : RedirectionResponse → Response
  get_resp : GetResponse → Response
  put_resp cas_resp remove_resp : ModResponse → Response

unfoldable pub request_serial : Request → ℕ
request_serial (get_req r) = r.serial
request_serial (put_req r) = r.serial
request_serial (cas_req r) = r.serial
request_serial (remove_req r) = r.serial

unfoldable pub response_serial : Response → ℕ
response_serial (redirection_resp r) = r.header.serial
response_serial (get_resp r) = r.header.serial
response_serial (put_resp r) = r.header.serial
response_serial (cas_resp r) = r.header.serial
response_serial (remove_resp r) = r.header.serial

unfoldable pub response_errcode : Response → Errc
response_errcode (redirection_resp r) = r.header.errcode
response_errcode (get_resp r) = r.header.errcode
response_errcode (put_resp r) = r.header.errcode
response_errcode (cas_resp r) = r.header.errcode
response_errcode (remove_resp r) = r.header.errcode

-- `response_header(req, errcode)`; the serial number is that of the request.
abbrev pub response_header : ℕ → Errc → ResponseBase
response_header serial errcode = record { serial = serial; errcode = errcode }
