-- ===== src/Signaling/Dispatch/Routing.antt =====
-- internal/signaling/messages.go and dispatch.go: a message from one peer's constructor to the other
-- peer's listener.
use open_friend_mc.Prelude.{
  ℕ, ◌≡◌, refl, Bool, true, false, List, ◌∷◌, Option, some, String, Bytes, if◌then◌else◌,
}
use open_friend_mc.Prelude.Json.{Fields, at, text_at}
use open_friend_mc.Signaling.Messages.{
  join_request, offer, join_accepted, join_rejected, answer, ice_candidate, IceCandidatePayload,
  parse_ice_candidate, get_session_id, get_sdp,
}
use open_friend_mc.Signaling.Dispatch.{
  Listener, Decoders, Inbox, safe_call, route, with_payload, with_pmid, with_envelopes, acknowledge,
  handle_receive_message,
}

-- The messages of the package, by their constructors' arguments.
pub data Sent : Type 0 where
  sent_request sent_accepted sent_rejected : String → Sent
  sent_offer sent_answer : String → String → Sent
  sent_candidate : String → IceCandidatePayload → Sent

unfoldable pub fields_of : Sent → Fields
fields_of (sent_request session_id) = join_request session_id
fields_of (sent_accepted session_id) = join_accepted session_id
fields_of (sent_rejected session_id) = join_rejected session_id
fields_of (sent_offer session_id sdp) = offer session_id sdp
fields_of (sent_answer session_id sdp) = answer session_id sdp
fields_of (sent_candidate session_id p) = ice_candidate session_id p

-- Whether the message is for the listener of joins.
abbrev pub about_joins : Sent → Bool
about_joins (sent_request session_id) = true
about_joins (sent_accepted session_id) = true
about_joins (sent_rejected session_id) = true
about_joins (sent_offer session_id sdp) = false
about_joins (sent_answer session_id sdp) = false
about_joins (sent_candidate session_id p) = false

-- What a listener reads in the payload, by the getters, is what the sender put in.
abbrev pub ReadBack : Sent → Fields → Type 0
ReadBack (sent_request session_id) j = get_session_id j ≡ session_id
ReadBack (sent_accepted session_id) j = get_session_id j ≡ session_id
ReadBack (sent_rejected session_id) j = get_session_id j ≡ session_id
ReadBack (sent_offer session_id sdp) j = (get_session_id j ≡ session_id) × (get_sdp j ≡ sdp)
ReadBack (sent_answer session_id sdp) j = (get_session_id j ≡ session_id) × (get_sdp j ≡ sdp)
ReadBack (sent_candidate session_id p) j =
    (get_session_id j ≡ session_id) × (parse_ice_candidate j ≡ some p)

fields_of-ReadBack : (m : Sent) → ReadBack m (fields_of m)
unfolding fields_of join_request offer join_accepted join_rejected answer ice_candidate
    get_session_id get_sdp parse_ice_candidate at text_at
fields_of-ReadBack (sent_request session_id) = refl
fields_of-ReadBack (sent_accepted session_id) = refl
fields_of-ReadBack (sent_rejected session_id) = refl
fields_of-ReadBack (sent_offer session_id sdp) = (refl, refl)
fields_of-ReadBack (sent_answer session_id sdp) = (refl, refl)
fields_of-ReadBack (sent_candidate session_id p) = (refl, refl)

module _ {A : Type 0} (d : Decoders) (on_join on_rtc : Option (Listener A)) where
  route-fields_of :
      (m : Sent) (from : ℕ) (s : Inbox A)
      → route d on_join on_rtc from (fields_of m) s
        ≡ safe_call d on_join on_rtc
            (if about_joins m then on_join else on_rtc)
            from
            (fields_of m)
            s
  unfolding route fields_of join_request offer join_accepted join_rejected answer ice_candidate at
      text_at
  route-fields_of (sent_request session_id) from s = refl
  route-fields_of (sent_accepted session_id) from s = refl
  route-fields_of (sent_rejected session_id) from s = refl
  route-fields_of (sent_offer session_id sdp) from s = refl
  route-fields_of (sent_answer session_id sdp) from s = refl
  route-fields_of (sent_candidate session_id p) from s = refl

  -- When the first envelope of a receive notification names a peer and holds what decodes to one of the
  -- package's messages, then the acknowledgement apart, exactly one listener is called, that of joins
  -- for a join message and that of WebRTC else, with the peer and a payload from which the getters read
  -- what the sender put in.
  pub handle_receive_message-sent :
      (m : Sent) (id : Option Bytes) (params : Bytes) (envelope : Fields) (more : List Fields)
      (from : ℕ) (s : Inbox A)
      → d.envelopes params ≡ some (envelope ∷ more)
      → d.uuid (text_at "From" envelope) ≡ some from
      → d.payload (text_at "Message" envelope) ≡ some (fields_of m)
      → (handle_receive_message d on_join on_rtc id params s
          ≡ safe_call d on_join on_rtc
              (if about_joins m then on_join else on_rtc)
              from
              (fields_of m)
              (acknowledge d on_join on_rtc id s))
        × ReadBack m (fields_of m)
  unfolding handle_receive_message with_envelopes with_pmid with_payload
  handle_receive_message-sent m id params envelope more from s wrapped peer inside = (
    simp (wrapped, peer, inside) (route-fields_of m from (acknowledge d on_join on_rtc id s)),
    fields_of-ReadBack m,
  )
