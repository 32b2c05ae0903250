-- ===== src/Examples/Pump.antt =====
-- The two loops from a TCP connection to the data channel, at concrete inputs.
use open_friend_mc.Prelude.{
  ◌≡◌, refl, Bool, true, false, List, [], ◌∷◌, ◌++◌, some, Bytes, codes, concat, All,
}
use open_friend_mc.Bridge.Session.{
  Session, acceptor, new_session, attach_data_channel, send, wait_for_buffer_drain,
}
use open_friend_mc.Bridge.Pump.{Round, read_loop, join_loop, fresh_pump}
use open_friend_mc.Bridge.Pump.NoGaps.{read, join_loop-IsPrefix}
use open_friend_mc.Bridge.Pump.Complete.{Works, read_until, loops-read_until}

connected : Session
connected = attach_data_channel true (new_session acceptor)

-- The queue is full at first; in the last round `Read` fails behind two bytes.
good_round : Bytes → Bool → Round
unfolding connected
good_round bytes failed = record {
  rtc = some connected;
  bytes = bytes;
  failed = failed;
  seen = (true, 2000000) ∷ (true, 0) ∷ [];
  is_open = true;
  taken = true;
}

rounds : List Round
unfolding good_round
rounds = good_round (codes "abc") false ∷ good_round [] false ∷ good_round (codes "de") true ∷ []

good_round-Works : (bytes : Bytes) (failed : Bool) → Works connected (good_round bytes failed)
unfolding good_round connected attach_data_channel new_session send wait_for_buffer_drain
good_round-Works bytes failed = record { present = refl; drains = refl; sends = refl }

rounds-Works : All (Works connected) rounds
unfolding rounds
rounds-Works = (good_round-Works _ _, (good_round-Works _ _, (good_round-Works _ _, tt)))

all_sent :
    (concat (read_loop rounds fresh_pump).sent ≡ codes "abcde")
    × (concat (join_loop connected rounds fresh_pump).sent ≡ codes "abcde")
unfolding rounds good_round read_until
all_sent = loops-read_until connected rounds rounds-Works

-- The channel closes before the second round.
broken_rounds : List Round
unfolding good_round
broken_rounds =
    good_round (codes "abc") false
    ∷ (record (good_round (codes "de") false) { is_open = false })
    ∷ good_round (codes "f") false
    ∷ []

sent_before :
    (rest : Bytes) × (concat (join_loop connected broken_rounds fresh_pump).sent ++ rest
      ≡ read broken_rounds)
sent_before = join_loop-IsPrefix connected broken_rounds
