-- ===== src/Signaling/Messages.antt =====
-- internal/signaling/messages.go: the messages that peers send each other, as JSON objects.
use open_friend_mc.Prelude.{ℕ, Option, none, some, String}
use open_friend_mc.Prelude.Json.{
  Json, text, number, object, Fields, no_fields, field, at, as_text, as_number, text_at,
}

unfoldable pub join_request : String → Fields
join_request session_id =
    field "type" (text "JOIN_REQUEST") (field "sessionId" (text session_id) no_fields)

unfoldable pub offer : String → String → Fields
offer session_id sdp =
    field "type" (text "OFFER")
      (field "sessionId" (text session_id) (field "sdp" (text sdp) no_fields))

unfoldable pub join_accepted : String → Fields
join_accepted session_id =
    field "type" (text "JOIN_ACCEPTED") (field "sessionId" (text session_id) no_fields)

unfoldable pub join_rejected : String → Fields
join_rejected session_id =
    field "type" (text "JOIN_REJECTED") (field "sessionId" (text session_id) no_fields)

unfoldable pub answer : String → String → Fields
answer session_id sdp =
    field "type" (text "ANSWER")
      (field "sessionId" (text session_id) (field "sdp" (text sdp) no_fields))

pub record IceCandidatePayload : Type 0 where
  pub candidate : String
  pub sdp_mid : String
  pub sdp_mline_index : ℕ

unfoldable pub ice_candidate : String → IceCandidatePayload → Fields
ice_candidate session_id p = field "type" (text "ICE_CANDIDATE") (
    field "sessionId" (text session_id) (
      field "iceCandidate"
        (object (
          field "candidate" (text p.candidate) (
            field "sdpMid" (text p.sdp_mid)
              (field "sdpMLineIndex" (number p.sdp_mline_index) no_fields))))
        no_fields))

-- `if v, ok := m["sdpMid"].(string); ok`, else "0".
abbrev mid_of : Option Json → String
mid_of (some (text v)) = v
mid_of (some value) = "0"
mid_of none = "0"

candidate_of : Option Json → Option IceCandidatePayload
candidate_of (some (object m)) = some (record {
  candidate = as_text (at "candidate" m);
  sdp_mid = mid_of (at "sdpMid" m);
  sdp_mline_index = as_number (at "sdpMLineIndex" m);
})
candidate_of (some value) = none
candidate_of none = none

unfoldable pub parse_ice_candidate : Fields → Option IceCandidatePayload
unfolding candidate_of at
parse_ice_candidate payload = candidate_of (at "iceCandidate" payload)

unfoldable pub get_session_id : Fields → String
unfolding text_at
get_session_id payload = text_at "sessionId" payload

unfoldable pub get_sdp : Fields → String
unfolding text_at
get_sdp payload = text_at "sdp" payload
