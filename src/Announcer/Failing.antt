-- ===== src/Announcer/Failing.antt =====
-- The addresses that fail.
use recsync.Prelude.{
  ℕ, ◌+◌, ◌≡◌, refl, [], ◌∷◌, Bool, true, false, List, some, Bytes, Result, ok, err,
  message_length_error, Eq, arith, if◌then◌else◌, Bool-cases, inl, inr,
}
use recsync.Sets.{set_contains, set_add, set_discard, set_contains-add, set_contains-discard}
use recsync.Announcer.{Announcer, sent, send_all, send_one}

-- A packet to an address that fails is too long, and every other one is sent.
abbrev pub result_of : Bool → Result (Unit {0})
result_of true = err message_length_error
result_of false = ok tt

module _ {ℓ κ} {A : Type ℓ} ⦃e : Eq A⦄ {W : Type κ} (send : Bytes → A → W → Result (Unit {0}) × W)
    (fails : A → Bool)
    (answers : (msg : Bytes) (a : A) (w : W) → (send msg a w).0 ≡ result_of (fails a)) where
  send_all-failing :
      (msg : Bytes) (udps failing : List A) (w : W) (a : A)
      → let out = send_all send msg udps failing w in
        (out.0 ≡ ok tt)
        × (set_contains out.1.0 a
            ≡ (if set_contains udps a then fails a else set_contains failing a))
  unfolding send_all sent set_contains
  send_all-failing msg [] failing w a = (refl, refl)
  send_all-failing msg (b ∷ rest) failing w a = elim (Bool-cases (fails b)) [
    | inl bad ↦
        let (h, k) = send_all-failing msg rest (set_add failing b) (send msg b w).1 a in
        rw (answers msg b w, bad)
          (h, ground (arith, k, set_contains-add failing b a, e.beq_iff b a))
    | inr good ↦
        let (h, k) = send_all-failing msg rest (set_discard failing b) (send msg b w).1 a in
        rw (answers msg b w, good)
          (h, ground (arith, k, set_contains-discard failing b a, e.beq_iff b a))
  ]

  -- Where each address either fails with a message that is too long or works, sendOne returns, is
  -- due again after its period, and the set of failing addresses holds exactly those announced to
  -- that fail, and the others as before.
  pub send_one-failing :
      (now : ℕ) (s : Announcer A) (w : W) (a : A)
      → let out = send_one send now s w in
        (out.0 ≡ ok tt)
        × (out.1.0.due ≡ some (now + s.delay))
        × (set_contains out.1.0.udp_err a
            ≡ (if set_contains s.udps a then fails a else set_contains s.udp_err a))
  unfolding send_one
  send_one-failing now s w a =
      let (h, k) = send_all-failing s.msg s.udps s.udp_err w a in (h, refl, k)
