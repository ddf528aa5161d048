-- ===== src/Recast/Factory/Pings.antt =====
-- The alive test: writePing and recvPong.
use recsync.Prelude.{
  arith, ℕ, ◌+◌, ◌<◌, ◌≡◌, ap, ◌∙◌, refl, [], ◌∷◌, ◌++◌, true, some, Bytes, ok, nat_beq, Bool-cases,
  inl, inr, if◌then◌else◌,
}
use recsync.Protocol.Messages.Header.{frame}
use recsync.Protocol.Messages.Header.RoundTrip.{frame_lem}
use recsync.Protocol.Messages.Fixed.{encode_ping, encode_pong, decode_pong, ping_id}
use recsync.Protocol.Messages.Fixed.RoundTrip.{decode-encode_word}
use recsync.Recast.Receiver.{Settings, Receiver, lose, write, write_ping, on_pong}

-- What a pong with the number `reply` does to a connection that sent `nonce`.
abbrev pub answered : ℕ → ℕ → Receiver → Receiver
answered reply nonce r =
    if nat_beq reply nonce then record r { phase = some 1 } else record r { losing = true }

pong_read :
    (answer : Bytes) (reply nonce : ℕ) (r : Receiver)
    → decode_pong answer ≡ ok reply
    → (on_pong answer (record r { nonce = some nonce })).1
      ≡ answered reply nonce (record r { nonce = some nonce })
unfolding on_pong
pong_read answer reply nonce r d = elim (Bool-cases (nat_beq reply nonce)) [
  | inl same ↦ rw (d, on_pong, same)
  | inr other ↦ rw (d, on_pong, other)
]

module _ (c : Settings) (now nonce : ℕ) (r : Receiver) where
  -- the connection once its ping is written
  abbrev pub pinged : Bytes → Receiver
  pinged wire = record r {
    ping_timer = some (now + c.timeout);
    phase = some 2;
    nonce = some nonce;
    written = r.written ++ wire ∷ [];
  }

  ping_sent :
      (wire : Bytes)
      → r.phase ≡ some 1
      → frame ping_id (encode_ping nonce) ≡ ok wire
      → write_ping c now nonce r ≡ (ok tt, pinged wire)
  unfolding write_ping
  ping_sent wire h w = rw (h, write_ping, w, write)

  -- In phase 1 the timer writes a ping with its nonce, restarts and enters phase 2; from there the
  -- pong with this nonce leads back to phase 1, and a pong with another number of 32 bits drops
  -- the connection.
  pub ping_and_pong :
      (reply : ℕ)
      → r.phase ≡ some 1
      → nonce < 4294967296
      → reply < 4294967296
      → (wire answer : Bytes) × (encode_pong reply ≡ ok answer)
        × (frame ping_id (encode_ping nonce) ≡ ok wire)
        × (write_ping c now nonce r ≡ (ok tt, pinged wire))
        × ((on_pong answer (pinged wire)).1 ≡ answered reply nonce (pinged wire))
  ping_and_pong reply h fits fits' =
      let (answer, p, d, _) = decode-encode_word reply fits' in
      let (ping, q, _, l) = decode-encode_word nonce fits in
      let (wire, w, _, _) = frame_lem ping_id ping (omega arith) (omega arith) in
      let written = ap (frame ping_id) q ∙ w in
      (
        wire,
        answer,
        p,
        written,
        ping_sent wire h written,
        pong_read answer reply nonce (pinged wire) d,
      )

  dropped :
      (later nonce' : ℕ) (wire : Bytes)
      → write_ping c later nonce' (pinged wire) ≡ (ok tt, lose (pinged wire))
  unfolding write_ping
  dropped later nonce' wire = refl

  -- In phase 1 two timers without a pong in between write one ping, and the second drops the
  -- connection, sends nothing and starts no timer.
  pub two_timers_drop :
      (later nonce' : ℕ)
      → r.phase ≡ some 1
      → nonce < 4294967296
      → (wire : Bytes) × (frame ping_id (encode_ping nonce) ≡ ok wire)
        × (write_ping c later nonce' (write_ping c now nonce r).1 ≡ (ok tt, lose (pinged wire)))
  two_timers_drop later nonce' h fits =
      let (wire, _, _, w, sent, _) = ping_and_pong 0 h fits (omega arith) in
      (wire, w, rw sent (dropped later nonce' wire))
