-- ===== src/Bridge/Handshake/Frame.antt =====
-- `readFramedPacket` on a growing buffer: what it has decided once it does not take back.
use open_friend_mc.Prelude.{
  ℕ, ◌≤◌, ◌≡◌, arith, ap, ◌∙◌, ◌++◌, Bytes, length, length-append, slice-append, inl, inr, ok, err,
  Result-cases,
}
use open_friend_mc.Bridge.VarInt.{ReadError, eof, read_var_int}
use open_friend_mc.Bridge.VarInt.Reading.{
  read_var_int-append, read_var_int-append_overflow, read_var_int-VarIntFailure,
}
use open_friend_mc.Bridge.Handshake.{failed, packet, frame_of, read_framed_packet}

frame_of-append_packet :
    (buf more rest p : Bytes) (len size n : ℕ)
    → frame_of buf (ok (len, size, rest)) ≡ packet p n
    → (frame_of (buf ++ more) (ok (len, size, rest ++ more)) ≡ packet p n) × (n ≤ length buf)
unfolding frame_of
frame_of-append_packet buf more rest p len size n h =
    ground (arith, length-append buf more, slice-append size len buf more)

frame_of-append_failed :
    (buf more rest : Bytes) (len size : ℕ) (e : ReadError)
    → frame_of buf (ok (len, size, rest)) ≡ failed e
    → frame_of (buf ++ more) (ok (len, size, rest ++ more)) ≡ failed e
unfolding frame_of
frame_of-append_failed buf more rest len size e h = ground (arith, length-append buf more)

err_gives_no_packet :
    (buf p : Bytes) (n : ℕ) (x : ReadError) → frame_of buf (err x) ≡ packet p n → ⊥
unfolding frame_of
err_gives_no_packet buf p n eof h = cc
err_gives_no_packet buf p n _ h = cc

eof_does_not_fail : (buf : Bytes) (e : ReadError) → frame_of buf (err eof) ≡ failed e → ⊥
unfolding frame_of
eof_does_not_fail buf e h = cc

-- A packet that was found stays the same packet when more bytes arrive, and lies in the buffer.
pub read_framed_packet-append_packet :
    (buf more p : Bytes) (n : ℕ)
    → read_framed_packet buf ≡ packet p n
    → (read_framed_packet (buf ++ more) ≡ packet p n) × (n ≤ length buf)
unfolding read_framed_packet
read_framed_packet-append_packet buf more p n h = elim (Result-cases (read_var_int buf)) [
  | inl ((len, size, rest), e) ↦
      rw (read_var_int-append buf more e)
        (frame_of-append_packet buf more rest p len size n (rw (e, read_framed_packet) at h))
  | inr (x, e) ↦ absurd (err_gives_no_packet buf p n x (rw (e, read_framed_packet) at h))
]

-- A frame that was refused stays refused.
pub read_framed_packet-append_failed :
    (buf more : Bytes) (e : ReadError)
    → read_framed_packet buf ≡ failed e
    → read_framed_packet (buf ++ more) ≡ failed e
unfolding read_framed_packet frame_of
read_framed_packet-append_failed buf more e h = elim (Result-cases (read_var_int buf)) [
  | inl ((len, size, rest), q) ↦
      rw (read_var_int-append buf more q)
        (frame_of-append_failed buf more rest len size e (rw (q, read_framed_packet) at h))
  | inr (x, q) ↦ elim (read_var_int-VarIntFailure buf q) [
    | inl at_end ↦
        absurd (eof_does_not_fail buf e (rw (q ∙ ap err at_end, read_framed_packet) at h))
    | inr long ↦
        rw (read_var_int-append_overflow buf more (q ∙ ap err long))
          (rw (q ∙ ap err long, read_framed_packet) at h)
  ]
]
