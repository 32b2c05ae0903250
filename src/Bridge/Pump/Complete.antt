-- ===== src/Bridge/Pump/Complete.antt =====
-- internal/bridge/tcp.go, host.go and join.go: what the two loops send over a channel that works.
use open_friend_mc.Prelude.{
  ◌≡◌, refl, sym, ap, ◌∙◌, Bool, true, false, ◌||◌, List, [], ◌∷◌, ◌++◌, append_assoc, append-nil,
  some, ok, Bytes, is_empty, concat, All, if◌then◌else◌, if_lem,
}
use open_friend_mc.Bridge.Session.{Session, send, wait_for_buffer_drain}
use open_friend_mc.Bridge.Session.Warmup.{concat_snoc}
use open_friend_mc.Bridge.Pump.NoGaps.{empty_none}
use open_friend_mc.Bridge.Pump.{
  Round, Pump, fresh_pump, stops, max_buffered, join_sent, join_read, join_drained, join_loop,
  sent_down, drained, send_down, read_round, read_loop,
}

-- The session's channel works in the round.
pub record Works (s : Session) (r : Round) : Type 0 where
  pub present : r.rtc ≡ some s
  pub drains : wait_for_buffer_drain max_buffered r.seen s ≡ some (ok tt)
  pub sends : send r.is_open r.taken s ≡ ok tt

-- What is read until a `Read` fails, that one's bytes included.
unfoldable pub read_until : List Round → Bytes
read_until [] = []
read_until (r ∷ rs) = r.bytes ++ (if r.failed then [] else read_until rs)

record Sends (r : Round) (p q : Pump) : Type 0 where
  bytes : concat q.sent ≡ concat p.sent ++ r.bytes
  ended : q.ended ≡ r.failed
  waiting : q.waiting ≡ false

add_none :
    (sent : List Bytes) (bytes : Bytes) → is_empty bytes ≡ true → concat sent ≡ concat sent ++ bytes
add_none sent bytes e =
    sym (append-nil (concat sent)) ∙ ap (λ t. concat sent ++ t) (sym (empty_none bytes e))

join_read-Sends :
    (s : Session) (r : Round) (p : Pump)
    → Works s r
    → p.waiting ≡ false
    → Sends r p (join_read s r p)
unfolding join_read join_sent
join_read-Sends s r p works w =
    if_lem (Sends r p) _ _ (is_empty r.bytes)
      (λ e. record { bytes = add_none p.sent r.bytes e; ended = refl; waiting = w })
      (λ e.
        rw works.sends (record { bytes = concat_snoc p.sent r.bytes; ended = refl; waiting = w }))

join_drained-Sends :
    (s : Session) (r : Round) (p : Pump)
    → Works s r
    → p.waiting ≡ false
    → Sends r p (join_drained (wait_for_buffer_drain max_buffered r.seen s) s r p)
unfolding join_drained
join_drained-Sends s r p works w = rw works.drains (join_read-Sends s r p works w)

-- The callback's part of a round.
called : Round → Pump → Pump
unfolding send_down
called r p = if is_empty r.bytes then p else send_down r.rtc r p

record Calls (r : Round) (p q : Pump) : Type 0 where
  bytes : concat q.sent ≡ concat p.sent ++ r.bytes
  waiting : q.waiting ≡ false

called-Calls :
    (s : Session) (r : Round) (p : Pump) → Works s r → p.waiting ≡ false → Calls r p (called r p)
unfolding called send_down drained sent_down
called-Calls s r p works w =
    if_lem (Calls r p) _ _ (is_empty r.bytes)
      (λ e. record { bytes = add_none p.sent r.bytes e; waiting = w })
      (λ e.
        rw (works.present, works.drains, works.sends)
          (record { bytes = concat_snoc p.sent r.bytes; waiting = w }))

read_round-Sends :
    (s : Session) (r : Round) (p : Pump)
    → Works s r
    → p.waiting ≡ false
    → Sends r p (read_round r p)
unfolding read_round called
read_round-Sends s r p works w =
    let c = called-Calls s r p works w in
    if_lem (Sends r p) _ _ (called r p).waiting (λ e. absurd (cc))
      (λ e. record { bytes = c.bytes; ended = refl; waiting = c.waiting })

choose :
    (failed : Bool) (q after_ : Pump) (before bytes rest : Bytes)
    → concat q.sent ≡ before ++ bytes
    → concat after_.sent ≡ concat q.sent ++ rest
    → concat (if failed then q else after_).sent
      ≡ before ++ (bytes ++ (if failed then [] else rest))
choose true q after_ before bytes rest one later =
    one ∙ ap (λ t. before ++ t) (sym (append-nil bytes))
choose false q after_ before bytes rest one later =
    later ∙ (ap (λ t. t ++ rest) one ∙ append_assoc before bytes rest)

or_none : (b : Bool) → (b || false) ≡ b
or_none false = refl
or_none true = refl

loop_step :
    (r : Round) (rs : List Round) (p q after_ : Pump)
    → Sends r p q
    → concat after_.sent ≡ concat q.sent ++ read_until rs
    → concat (if stops q then q else after_).sent ≡ concat p.sent ++ read_until (r ∷ rs)
unfolding stops read_until
loop_step r rs p q after_ sends later =
    let stop : (q.ended || q.waiting) ≡ r.failed =
      rw (sends.waiting, sends.ended) (or_none r.failed) in
    rw stop (choose r.failed q after_ (concat p.sent) r.bytes (read_until rs) sends.bytes later)

join_loop-read_until :
    (s : Session) (rs : List Round) (p : Pump)
    → All (Works s) rs
    → p.waiting ≡ false
    → concat (join_loop s rs p).sent ≡ concat p.sent ++ read_until rs
unfolding join_loop read_until
join_loop-read_until s [] p works w = sym (append-nil (concat p.sent))
join_loop-read_until s (r ∷ rs) p (one, works) w =
    let q = join_drained (wait_for_buffer_drain max_buffered r.seen s) s r p in
    let sends = join_drained-Sends s r p one w in
    loop_step r rs p q (join_loop s rs q) sends (join_loop-read_until s rs q works sends.waiting)

read_loop-read_until :
    (s : Session) (rs : List Round) (p : Pump)
    → All (Works s) rs
    → p.waiting ≡ false
    → concat (read_loop rs p).sent ≡ concat p.sent ++ read_until rs
unfolding read_loop read_until
read_loop-read_until s [] p works w = sym (append-nil (concat p.sent))
read_loop-read_until s (r ∷ rs) p (one, works) w =
    let q = read_round r p in
    let sends = read_round-Sends s r p one w in
    loop_step r rs p q (read_loop rs q) sends (read_loop-read_until s rs q works sends.waiting)

-- In rounds in which the data channel is there, drains and takes the bytes: both loops, the host's and the
-- joining side's, send the bytes that are read until a `Read` fails, all of them and in that order.
pub loops-read_until :
    (s : Session) (rs : List Round)
    → All (Works s) rs
    → (concat (read_loop rs fresh_pump).sent ≡ read_until rs)
      × (concat (join_loop s rs fresh_pump).sent ≡ read_until rs)
loops-read_until s rs works = (
  read_loop-read_until s rs fresh_pump works refl,
  join_loop-read_until s rs fresh_pump works refl,
)
