-- ===== src/Recast/Factory/Accounting.antt =====
-- Every step of the factory keeps the account of its upload slots.
use recsync.Prelude.{inl, ℕ, ◌≡◌, refl, sym, none, Bytes, arith, nat_eq, subst}
use recsync.Dict
use recsync.Dict.{get-put}
use recsync.Recast.Transaction.{Address}
use recsync.Recast.Receiver.{Settings}
use recsync.Recast.Factory.{
  Factory, new_factory, build_protocol, data_received, timer_fired, connection_lost,
}
use recsync.Recast.Factory.Slots.{Balanced}
use recsync.Recast.Factory.Messages.{data_received-Balanced, timer_fired-Balanced}
use recsync.Recast.Factory.Connections.{connection_lost-Balanced, build_protocol-Balanced}

-- What may happen to the factory: a connection, data for a connection, a timer, a loss.
pub data Step (c : Settings) (f g : Factory) : Type 0 where
  connects :
      (now : ℕ) (peer : Address) (i : ℕ)
      → Dict.get f.protos i ≡ none
      → g ≡ (build_protocol c now peer i f).1
      → Step c f g
  receives :
      (now nonce : ℕ) (body : Bytes) (i : ℕ)
      → g ≡ (data_received c now nonce body i f).1
      → Step c f g
  fires : (now nonce i : ℕ) → g ≡ (timer_fired c now nonce i f).1 → Step c f g
  loses : (now i : ℕ) → g ≡ (connection_lost c now i f).1 → Step c f g

pub data Reach (c : Settings) (f : Factory) : Factory → Type 0 where
  here : Reach c f f
  next : {g h : Factory} → Reach c f g → Step c g h → Reach c f h

pub Step-Balanced : (c : Settings) (f g : Factory) → Step c f g → Balanced 0 f → Balanced 0 g
Step-Balanced c f g (connects now peer i new e) b =
    subst (Balanced 0) (sym e) (build_protocol-Balanced c now 0 i peer f b new)
Step-Balanced c f g (receives now nonce body i e) b =
    subst (Balanced 0) (sym e) (data_received-Balanced c now nonce i body f b)
Step-Balanced c f g (fires now nonce i e) b =
    subst (Balanced 0) (sym e) (timer_fired-Balanced c now nonce i f b)
Step-Balanced c f g (loses now i e) b =
    subst (Balanced 0) (sym e) (connection_lost-Balanced c now 0 i f b)

Reach-Balanced : {c : Settings} {f g : Factory} → Reach c f g → Balanced 0 f → Balanced 0 g
Reach-Balanced here b = b
Reach-Balanced {c} (next {g} {h} r s) b = Step-Balanced c g h s (Reach-Balanced r b)

new_factory-Balanced : (max_active : ℕ) → Balanced 0 (new_factory max_active)
unfolding new_factory
new_factory-Balanced max_active = record {
  used = 0;
  counted = refl;
  tally = refl;
  bounded = omega arith;
  waiting = tt;
  distinct = tt;
  full = inl refl;
  keys = tt;
  versions = tt;
}

-- In every state that the factory reaches by connections, data, timers and losses, NActive is the
-- number of connections marked active, between 0 and maxActive; whoever waits is connected and
-- inactive, once in the queue; and if anybody waits all slots are taken. No connection is known
-- twice, and none has agreed on a version above 0.
pub slots_accounted :
    (c : Settings) (max_active : ℕ) (f : Factory)
    → Reach c (new_factory max_active) f
    → Balanced 0 f
slots_accounted c max_active f r = Reach-Balanced r (new_factory-Balanced max_active)
