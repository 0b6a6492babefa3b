-- ===== src/Http.antt =====
-- HTTP messages of cotamer: http.hh, http.cc and the string helpers of cotamer_impl.hh.
pub mod Chars
pub mod Status
pub mod Lookup
pub mod Message
pub mod Send
pub mod Views
pub mod Lines
pub mod Strings
pub mod Headers
pub mod Callbacks
pub mod Trim
pub mod Pieces
pub mod Parsed
pub mod RoundTrip
pub mod Query
pub mod Params
pub mod Machine
pub mod MachineParams
pub mod Tracks
pub mod TrackSteps
pub mod Rounds
pub mod SearchParams
pub mod Url
pub mod UrlParts
pub mod UrlFields
pub mod UrlEnds
pub mod UrlSplit
mod Tests
