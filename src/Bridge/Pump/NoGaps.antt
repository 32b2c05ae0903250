-- ===== src/Bridge/Pump/NoGaps.antt =====
-- internal/bridge/join.go: what the joining side has sent has no gaps.
use open_friend_mc.Prelude.{
  ◌≡◌, refl, sym, ap, ◌∙◌, Bool, true, false, ◌||◌, List, [], ◌∷◌, ◌++◌, append_assoc, append-nil,
  Option, none, some, Result, ok, err, Bytes, is_empty, concat, map, if◌then◌else◌, if_lem, ◌⊎◌,
  inl, inr,
}
use open_friend_mc.Bridge.Session.{Session, SessionError, send, wait_for_buffer_drain}
use open_friend_mc.Bridge.Session.Warmup.{concat_snoc}
use open_friend_mc.Bridge.Pump.{
  Round, Pump, fresh_pump, stops, max_buffered, join_sent, join_read, join_drained, join_loop,
}

-- The bytes of the round went out, or none did and the loop stops.
Moved : Round → Pump → Pump → Type 0
Moved r p q = (concat q.sent ≡ concat p.sent ++ r.bytes) ⊎ ((stops q ≡ true) × (q.sent ≡ p.sent))

join_sent-Moved :
    (o : Result SessionError (Unit {0})) (r : Round) (p : Pump) → Moved r p (join_sent o r p)
unfolding Moved join_sent stops
join_sent-Moved (ok u) r p = inl (concat_snoc p.sent r.bytes)
join_sent-Moved (err e) r p = inr (refl, refl)

pub empty_none : (bytes : Bytes) → is_empty bytes ≡ true → bytes ≡ []
empty_none [] e = refl
empty_none (b ∷ bytes) e = absurd (cc)

join_read-Moved : (s : Session) (r : Round) (p : Pump) → Moved r p (join_read s r p)
unfolding Moved join_read
join_read-Moved s r p =
    if_lem (Moved r p) _ _ (is_empty r.bytes)
      (λ e. inl (
        sym (append-nil (concat p.sent))
        ∙ ap (λ t. concat p.sent ++ t) (sym (empty_none r.bytes e))))
      (λ e. join_sent-Moved (send r.is_open r.taken s) r p)

or_last : (b : Bool) → (b || true) ≡ true
or_last false = refl
or_last true = refl

join_drained-Moved :
    (o : Option (Result SessionError (Unit {0}))) (s : Session) (r : Round) (p : Pump)
    → Moved r p (join_drained o s r p)
unfolding Moved join_drained stops
join_drained-Moved none s r p = inr (or_last p.ended, refl)
join_drained-Moved (some (err e)) s r p = inr (refl, refl)
join_drained-Moved (some (ok u)) s r p = join_read-Moved s r p

abbrev IsPrefix : Bytes → Bytes → Type 0
IsPrefix s t = (rest : Bytes) × (s ++ rest ≡ t)

abbrev pub read : List Round → Bytes
read rs = concat (map (λ (r : Round). r.bytes) rs)

join_step-IsPrefix :
    (r : Round) (rs : List Round) (p q after_ : Pump)
    → Moved r p q
    → IsPrefix (concat after_.sent) (concat q.sent ++ read rs)
    → IsPrefix (concat (if stops q then q else after_).sent) (concat p.sent ++ read (r ∷ rs))
unfolding Moved
join_step-IsPrefix r rs p q after_ (inl more) (rest, same) =
    let grown : concat q.sent ++ read rs ≡ concat p.sent ++ read (r ∷ rs) =
      ap (λ t. t ++ read rs) more ∙ append_assoc (concat p.sent) r.bytes (read rs) in
    if_lem (λ (o : Pump). IsPrefix (concat o.sent) (concat p.sent ++ read (r ∷ rs))) _ _ (stops q)
      (λ e. (read rs, grown)) (λ e. (rest, same ∙ grown))
join_step-IsPrefix r rs p q after_ (inr (stop, kept)) before =
    rw stop (read (r ∷ rs), ap (λ t. concat t ++ read (r ∷ rs)) kept)

loop-IsPrefix :
    (s : Session) (rs : List Round) (p : Pump)
    → IsPrefix (concat (join_loop s rs p).sent) (concat p.sent ++ read rs)
unfolding join_loop
loop-IsPrefix s [] p = ([], refl)
loop-IsPrefix s (r ∷ rs) p =
    let q = join_drained (wait_for_buffer_drain max_buffered r.seen s) s r p in
    join_step-IsPrefix r rs p q (join_loop s rs q) (join_drained-Moved _ s r p)
      (loop-IsPrefix s rs q)

-- Whatever the network does in whichever rounds: what the joining side has sent over the data channel is
-- a prefix of what it has read from the local client.
pub join_loop-IsPrefix :
    (s : Session) (rs : List Round) → IsPrefix (concat (join_loop s rs fresh_pump).sent) (read rs)
join_loop-IsPrefix s rs = loop-IsPrefix s rs fresh_pump
