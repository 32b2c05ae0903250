-- ===== src/Examples/Bridge.antt =====
-- internal/bridge: handshakes and host sessions.
use open_friend_mc.Prelude.{
  ℕ, ◌-◌, ◌^◌, ◌≡◌, refl, arith, true, false, List, [], ◌∷◌, ◌++◌, Bytes, length, take, drop,
  concat, none, some, codes, ok, comparable_nat, comparable_string, ◌↔◌, ◌⊎◌, String,
}
use open_friend_mc.Prelude.Assoc.{lookup, insert}
use open_friend_mc.Bridge.VarInt.{write_var_int, read_var_int}
use open_friend_mc.Bridge.VarInt.RoundTrip.{read_var_int-write_var_int}
use open_friend_mc.Bridge.Handshake.{
  Handshake, IsValid, handshake_body, decode_handshake, encode_handshake, read_framed_packet,
  packet,
}
use open_friend_mc.Bridge.Handshake.RoundTrip.{read_framed_packet-encode_handshake}
use open_friend_mc.Bridge.Tcp.{TcpBridge, IsLive}
use open_friend_mc.Bridge.HostSession.{HostSession, close, attach_tcp, on_peer_messages}
use open_friend_mc.Bridge.HostSession.Relay.{forwarded, IsFresh, on_peer_messages-forwarded}
use open_friend_mc.Bridge.HostSession.Delivery.{with_marker, forwarded-encode_handshake}
use open_friend_mc.Bridge.HostSession.Closing.{attach_tcp_after_close}
use open_friend_mc.Bridge.Session.{acceptor, new_session, attach_data_channel, on_messages}
use open_friend_mc.Bridge.Session.ToServer.{on_messages-forwarded}
use open_friend_mc.Bridge.Host.{
  HostManager, Candidate, answered, new_host_manager, remove_session, handle_ice, close_all,
  on_join_request, handle_offer, start_session, channel_open,
}
use open_friend_mc.Bridge.Host.Registry.{Inv}
use open_friend_mc.Bridge.Host.Isolation.{remove_session_exact, handle_ice_owner, with_ice}
use open_friend_mc.Bridge.Host.Hanging.{offer_hangs}
use open_friend_mc.Bridge.Host.Runs.{
  shutdown, Event, join_request, offer, opened, run, step, run-new_host_manager-Inv,
  one_open_session, close_all_closes,
}

two_bytes : write_var_int 300 ≡ 0xac ∷ 0x02 ∷ []
unfolding write_var_int
two_bytes = refl

minus_one : read_var_int (write_var_int (2 ^ 32 - 1)) ≡ ok (2 ^ 32 - 1, 5, [])
unfolding write_var_int read_var_int
minus_one = refl

read_back :
    read_var_int (write_var_int 300 ++ 7 ∷ []) ≡ ok (300, length (write_var_int 300), 7 ∷ [])
read_back = read_var_int-write_var_int 300 (7 ∷ []) (omega arith)

abbrev three : Bytes
three = 0xac ∷ 0x02 ∷ 9 ∷ []

abbrev nine : Bytes
nine = 9 ∷ []

abbrev login : Handshake
login = record {
  protocol_version = 765;
  server_address = codes "localhost";
  server_port = 25565;
  next_state = 2;
}

login-IsValid : IsValid login
login-IsValid = record {
  protocol_fits = omega arith;
  address_fits = omega arith;
  port_fits = omega arith;
  state_fits = omega arith;
}

login_read :
    (read_framed_packet (encode_handshake login ++ 5 ∷ [])
      ≡ packet (handshake_body login) (length (encode_handshake login)))
    × (decode_handshake (handshake_body login) ≡ ok login)
login_read = read_framed_packet-encode_handshake login (5 ∷ []) login-IsValid

abbrev framed : Bytes
framed = 3 ∷ 0 ∷ 1 ∷ 2 ∷ []

abbrev zeros : Bytes
zeros =
    0 ∷ 0 ∷ 0 ∷ 0 ∷ 0 ∷ 0 ∷ 0 ∷ 0 ∷ 0 ∷ 0 ∷ 0 ∷ 0 ∷ 0 ∷ 0 ∷ 0 ∷ 0 ∷ 0 ∷ 0 ∷ 0 ∷ 0 ∷ 0 ∷ 0 ∷ 0 ∷ 0
    ∷ 0 ∷ 0 ∷ 0 ∷ 0 ∷ 0 ∷ 0 ∷ 0 ∷ 0 ∷ []

-- A signature of 32 bytes that shows the key.
abbrev sign : Bytes → Bytes → Bytes
sign key text = take 32 (key ++ zeros)

abbrev key : Bytes
key = 1 ∷ 2 ∷ 3 ∷ []

abbrev nonce : Bytes
nonce = 1 ∷ 2 ∷ 3 ∷ 4 ∷ 5 ∷ 6 ∷ 7 ∷ 8 ∷ 9 ∷ 10 ∷ 11 ∷ 12 ∷ []

login_marked :
    forwarded sign key (some nonce) (encode_handshake login ++ 5 ∷ [])
    ≡ encode_handshake (with_marker sign key nonce login) ++ 5 ∷ []
login_marked =
    forwarded-encode_handshake sign key nonce refl refl login (5 ∷ []) login-IsValid (omega arith)

abbrev server : TcpBridge
server = record { written = []; writes = []; is_closed = false }

server-IsLive : IsLive server
server-IsLive = record { is_open = refl; takes_all = refl }

abbrev guest : HostSession
guest = record {
  from_pmid = 7;
  sid = "one";
  rtc = true;
  tcp = some server;
  closed = false;
  handshake_buf = [];
  handshake_done = false;
  shut_tcp = [];
  shut_rtc = 0;
  callbacks = 0;
}

guest-IsFresh : IsFresh guest server
guest-IsFresh = record { attached = refl; not_done = refl; no_bytes = refl }

abbrev pieces : List Bytes
pieces = (3 ∷ 0 ∷ []) ∷ (1 ∷ []) ∷ (2 ∷ 8 ∷ []) ∷ []

pieces-forwarded :
    (on_peer_messages sign (some key) (some nonce) guest pieces).tcp
    ≡ some (record server { written = [] ++ forwarded sign key (some nonce) (concat pieces) })
pieces-forwarded =
    on_peer_messages-forwarded sign (some nonce) key guest server pieces server-IsLive guest-IsFresh

-- The warm-up message in front of the pieces.
warmed_forwarded :
    let channel = attach_data_channel true (new_session acceptor) in
    (on_peer_messages sign
      (some key)
      (some nonce)
      guest
      (on_messages channel (codes "OFW0" ∷ pieces)).delivered).tcp
    ≡ some (record server {
      written = [] ++ forwarded sign key (some nonce) (drop 4 (concat (codes "OFW0" ∷ pieces)));
    })
warmed_forwarded =
    on_messages-forwarded sign (some nonce) key guest server true (codes "OFW0" ∷ pieces)
      server-IsLive guest-IsFresh

abbrev gone : HostSession
gone = record guest { closed = true; tcp = none; rtc = false }

attached_late :
    ((close (attach_tcp (some server) gone)).tcp ≡ some server)
    × ((close (attach_tcp (some server) gone)).shut_tcp ≡ [])
attached_late = attach_tcp_after_close gone server refl

-- A friend asks, opens a session and opens it again.
abbrev visit : List Event
visit =
    join_request 7 "one" true
    ∷ offer 7 "one" true true answered
    ∷ offer 7 "one" true true answered
    ∷ opened 1 (some server)
    ∷ []

visit-Inv : Inv (run sign (some key) new_host_manager visit)
visit-Inv = run-new_host_manager-Inv sign (some key) visit

abbrev second_visit : HostSession
second_visit = record {
  from_pmid = 7;
  sid = "one";
  rtc = true;
  tcp = some server;
  closed = false;
  handshake_buf = [];
  handshake_done = false;
  shut_tcp = [];
  shut_rtc = 0;
  callbacks = 0;
}

visit_found : lookup 1 (run sign (some key) new_host_manager visit).heap ≡ some second_visit
unfolding run step new_host_manager on_join_request handle_offer start_session channel_open
    attach_tcp close lookup insert
visit_found = refl

abbrev second_ref : ℕ
second_ref = 1

visit_open : second_ref ≡ second_ref
visit_open =
    one_open_session sign (some key) visit second_ref second_ref second_visit second_visit
      visit_found visit_found refl refl refl

abbrev after_visit : HostManager
after_visit = run sign (some key) new_host_manager visit

-- `close_all` leaves the session with its bridge closed.
abbrev closed_visit : HostSession
closed_visit = record {
  from_pmid = 7;
  sid = "one";
  rtc = false;
  tcp = none;
  closed = true;
  handshake_buf = [];
  handshake_done = false;
  shut_tcp = record server { is_closed = true } ∷ [];
  shut_rtc = 1;
  callbacks = 1;
}

visit_closed : lookup 1 (close_all after_visit).heap ≡ some closed_visit
unfolding run step new_host_manager on_join_request handle_offer start_session channel_open
    attach_tcp close lookup insert close_all remove_session
visit_closed = refl

all_closed : (closed_visit.closed ≡ true) × ((close_all after_visit).sessions ≡ [])
all_closed =
    close_all_closes after_visit 1 closed_visit (run-new_host_manager-Inv sign (some key) visit)
      visit_closed

abbrev table : HostManager
table = record {
  sessions = ("one", 1) ∷ [];
  heap = [];
  next_ref = 2;
  outbox = [];
  remote_ice = [];
  hung = false;
}

abbrev one : String
one = "one"

abbrev first_ref : ℕ
first_ref = 0

replaced_stays :
    (lookup one (remove_session one first_ref table).sessions ≡ some second_ref)
    ↔ ((lookup one table.sessions ≡ some second_ref) × ¬ ((one ≡ one) × (second_ref ≡ first_ref)))
replaced_stays = remove_session_exact one one first_ref second_ref table

abbrev candidate : Candidate
candidate = record { candidate = "udp"; sdp_mid = "0"; sdp_mline_index = 0 }

visit_ice :
    (handle_ice 7 "one" (some candidate) after_visit ≡ after_visit)
    ⊎ ((ref : ℕ) × (ps : HostSession) × (d : Candidate) × (some candidate ≡ some d)
        × (lookup "one" after_visit.sessions ≡ some ref)
        × (lookup ref after_visit.heap ≡ some ps)
        × (ps.from_pmid ≡ 7)
        × (ps.rtc ≡ true)
        × (handle_ice 7 "one" (some candidate) after_visit ≡ with_ice after_visit ref d))
visit_ice = handle_ice_owner 7 "one" (some candidate) after_visit

-- The friend sends another offer while the session is open, and the host is shut down.
visit_hangs :
    let q =
      run sign
        (some key)
        (step sign (some key) after_visit (offer 7 "one" true true answered))
        (shutdown ∷ []) in
    (q.hung ≡ true) × (q.sessions ≡ after_visit.sessions)
unfolding run step new_host_manager on_join_request handle_offer start_session channel_open
    attach_tcp close lookup insert
visit_hangs =
    offer_hangs sign (some key) 7 1 "one" answered second_visit server after_visit (shutdown ∷ [])
      refl refl refl refl refl refl
