-- ===== src/Announcer.antt =====
-- server/recceiver/announcer.py: the periodic announcement by UDP. An address is a pair that is only
-- compared; Twisted's transport is the parameter `send`, whose world `W` each packet may change.
pub mod Failing
use recsync.Prelude.{
  ℕ, ◌+◌, [], ◌∷◌, List, Option, none, some, Str, Bytes, Result, ok, err, message_length_error,
  runtime_error, ◌>>=◌, Eq,
}
use recsync.Sets.{set_add, set_discard}
use recsync.Protocol.Announce
use recsync.Protocol.Announce.{Announce, Inet}

pub record Announcer {ℓ} (A : Type ℓ) : Type ℓ where
  pub msg : Bytes
  pub delay : ℕ
  pub udps : List A
  pub udp_err : List A
  -- when the pending call of sendOne is due
  pub due : Option ℕ

-- __init__
unfoldable pub new_announcer {ℓ} :
    {A : Type ℓ} → Inet → Announce → List A → ℕ → Result (Announcer A)
unfolding Announce.encode
new_announcer inet announce udps period = Announce.encode inet announce >>= λ msg. elim udps [
  | [] ↦ err runtime_error
  | a ∷ rest ↦ ok (record { msg = msg; delay = period; udps = a ∷ rest; udp_err = []; due = none })
]

-- startProtocol
unfoldable pub start_protocol {ℓ} : {A : Type ℓ} → ℕ → Announcer A → Announcer A
start_protocol now s = record s { due = some now }

-- stopProtocol
unfoldable pub stop_protocol {ℓ} : {A : Type ℓ} → Announcer A → Announcer A
stop_protocol s = record s { due = none }

-- what follows one packet: the rest of the loop after a success, and after a packet that was too long
unfoldable pub sent {κ} : {R : Type κ} → Result (Unit {0}) → R → R → (Result (Unit {0}) → R) → R
sent (ok _) works too_long raises = works
sent (err message_length_error) works too_long raises = too_long
sent (err e) works too_long raises = raises (err e)

module _ {ℓ κ} {A : Type ℓ} ⦃e : Eq A⦄ {W : Type κ}
    (send : Bytes → A → W → Result (Unit {0}) × W) where
  -- the loop over the addresses, with the set of those that fail
  unfoldable pub send_all : Bytes → List A → List A → W → Result (Unit {0}) × (List A × W)
  unfolding sent
  send_all msg [] failing w = (ok tt, (failing, w))
  send_all msg (a ∷ rest) failing w =
      let (result, w') = send msg a w in
      let works = send_all msg rest (set_discard failing a) w' in
      let too_long = send_all msg rest (set_add failing a) w' in
      sent result works too_long (λ raised. (raised, (failing, w')))

  unfoldable pub send_one : ℕ → Announcer A → W → Result (Unit {0}) × (Announcer A × W)
  unfolding send_all
  send_one now s w =
      let (result, (failing, w')) = send_all s.msg s.udps s.udp_err w in
      (result, (record s { udp_err = failing; due = some (now + s.delay) }, w'))
