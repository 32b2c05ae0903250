-- ===== src/Bridge/Session/Warmup.antt =====
-- internal/bridge/session.go: the warm-up message, which precedes the data in the channel's stream.
use open_friend_mc.Prelude.{
  ℕ, zero, suc, ◌-◌, ◌≤◌, ◌≡◌, refl, sym, ap, ◌∙◌, arith, Bool, false, List, [], ◌∷◌, ◌++◌,
  append_assoc, append-nil, Bytes, length, drop, concat, is_empty, ltb, ltb→lt, if◌then◌else◌,
  if_lem,
}
use open_friend_mc.Bridge.Session.{
  Session, Role, new_session, attach_data_channel, on_message, on_messages,
}

pub concat_snoc : (a : List Bytes) (b : Bytes) → concat (a ++ b ∷ []) ≡ concat a ++ b
concat_snoc [] b = append-nil b
concat_snoc (x ∷ a) b = ap (λ t. x ++ t) (concat_snoc a b) ∙ sym (append_assoc x (concat a) b)

drop-append : (n : ℕ) (xs ys : Bytes) → drop n (xs ++ ys) ≡ drop n xs ++ drop (n - length xs) ys
drop-append zero xs ys = let e : 0 - length xs ≡ 0 = omega arith in rw e refl
drop-append (suc n) [] ys = let e : suc n - 0 ≡ suc n = omega arith in rw e refl
drop-append (suc n) (x ∷ xs) ys =
    let e : suc n - suc (length xs) ≡ n - length xs = omega arith in rw e (drop-append n xs ys)

drop_past : (n : ℕ) (xs : Bytes) → length xs ≤ n → drop n xs ≡ []
drop_past zero [] h = refl
drop_past (suc n) [] h = refl
drop_past zero (x ∷ xs) h = absurd (omega arith)
drop_past (suc n) (x ∷ xs) h = drop_past n xs (omega arith)

drop_min :
    (r : ℕ) (bytes : Bytes)
    → drop (if ltb (length bytes) r then length bytes else r) bytes ≡ drop r bytes
drop_min r bytes =
    if_lem (λ (k : ℕ). drop k bytes ≡ drop r bytes) _ _ (ltb (length bytes) r)
      (λ e.
        drop_past (length bytes) bytes (omega arith)
        ∙ sym (drop_past r bytes (let h = ltb→lt (length bytes) r e in omega arith)))
      (λ e. refl)

minus_min : (r n : ℕ) → r - (if ltb n r then n else r) ≡ r - n
minus_min r n = ground arith

drop-nil : (n : ℕ) → drop {A = ℕ} n [] ≡ []
drop-nil zero = refl
drop-nil (suc n) = refl

-- One message, whatever part of the warm-up message it holds.
record Passed (s t : Session) (bytes : Bytes) : Type 0 where
  delivers : concat t.delivered ≡ concat s.delivered ++ drop s.warmup_remaining bytes
  remains : t.warmup_remaining ≡ s.warmup_remaining - length bytes

kept :
    (log : List Bytes) (rest : Bytes)
    → concat (if is_empty rest then log else log ++ rest ∷ []) ≡ concat log ++ rest
kept log [] = sym (append-nil (concat log))
kept log (x ∷ rest) = concat_snoc log (x ∷ rest)

nothing_left :
    (s : Session) (bytes : Bytes)
    → ltb 0 s.warmup_remaining ≡ false
    → Passed s (record s { delivered = s.delivered ++ bytes ∷ [] }) bytes
nothing_left s bytes e =
    let none_left : s.warmup_remaining ≡ 0 = ground arith in
    record {
      delivers =
          concat_snoc s.delivered bytes
          ∙ ap (λ k. concat s.delivered ++ drop k bytes) (sym none_left);
      remains = omega (arith, none_left);
    }

on_message-Passed : (s : Session) (bytes : Bytes) → Passed s (on_message s bytes) bytes
unfolding on_message
on_message-Passed s bytes =
    if_lem (λ (t : Session). Passed s t bytes) _ _ (ltb 0 s.warmup_remaining)
      (λ e. record {
        delivers =
            kept s.delivered _
            ∙ ap (λ t. concat s.delivered ++ t) (drop_min s.warmup_remaining bytes);
        remains = minus_min s.warmup_remaining (length bytes);
      })
      (λ e. nothing_left s bytes e)

on_messages_stream :
    (s : Session) (messages : List Bytes)
    → concat (on_messages s messages).delivered
      ≡ concat s.delivered ++ drop s.warmup_remaining (concat messages)
unfolding on_messages
on_messages_stream s [] = sym (
    ap (λ t. concat s.delivered ++ t) (drop-nil s.warmup_remaining)
    ∙ append-nil (concat s.delivered))
on_messages_stream s (bytes ∷ more) =
    let p = on_message-Passed s bytes in
    on_messages_stream (on_message s bytes) more
    ∙ rw p.delivers (
        rw p.remains (
          append_assoc (concat s.delivered) (drop s.warmup_remaining bytes)
            (drop (s.warmup_remaining - length bytes) (concat more))
          ∙ ap (λ t. concat s.delivered ++ t)
              (sym (drop-append s.warmup_remaining bytes (concat more)))))

-- On a channel that was just attached to a new session, the data that is delivered is the stream of the
-- peer's messages without its first four bytes, however the peer cut it into messages.
pub attach_data_channel_stream :
    (role : Role) (is_open : Bool) (messages : List Bytes)
    → concat (on_messages (attach_data_channel is_open (new_session role)) messages).delivered
      ≡ drop 4 (concat messages)
unfolding attach_data_channel new_session
attach_data_channel_stream role is_open messages = on_messages_stream _ messages
