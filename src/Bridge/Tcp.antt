-- ===== src/Bridge/Tcp.antt =====
-- internal/bridge/tcp.go: `TCPBridge`. The connection is what it has accepted so far and the
-- outcomes of the writes to come, which the network chooses; a list that is used up succeeds.
use open_friend_mc.Prelude.{
  ℕ, Bool, true, false, List, [], ◌∷◌, ◌++◌, Bytes, take, if◌then◌else◌, ◌≡◌,
}

-- `conn.Write` takes all bytes, or fails after some.
pub data WriteOutcome : Type 0 where
  whole : WriteOutcome
  cut : ℕ → WriteOutcome

pub record TcpBridge : Type 0 where
  pub written : Bytes
  pub writes : List WriteOutcome
  pub is_closed : Bool

write_conn : TcpBridge → Bytes → List WriteOutcome → TcpBridge × Bool
write_conn b bytes [] = (record b { written = b.written ++ bytes }, true)
write_conn b bytes (whole ∷ later) =
    (record b { written = b.written ++ bytes; writes = later }, true)
write_conn b bytes (cut n ∷ later) =
    (record b { written = b.written ++ take n bytes; writes = later }, false)

-- The bridge after the write, and whether `Feed` returned no error. A closed connection refuses.
unfoldable pub feed : TcpBridge → Bytes → TcpBridge × Bool
unfolding write_conn
feed b bytes = if b.is_closed then (b, false) else write_conn b bytes b.writes

-- `closeOnce` lets the first call through; the second component says that `onClose` is called.
unfoldable pub close_bridge : TcpBridge → TcpBridge × Bool
close_bridge b = if b.is_closed then (b, false) else (record b { is_closed = true }, true)

-- A connection that is open and will take every write.
pub record IsLive (b : TcpBridge) : Type 0 where
  pub is_open : b.is_closed ≡ false
  pub takes_all : b.writes ≡ []

pub feed_live :
    (b : TcpBridge) (bytes : Bytes)
    → IsLive b
    → feed b bytes ≡ (record b { written = b.written ++ bytes }, true)
unfolding feed
feed_live b bytes live = rw (live.is_open, live.takes_all)
