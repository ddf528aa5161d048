-- ===== src/Recast/Factory/Slots.antt =====
-- The accounting of upload slots, and the moves of the factory.
pub mod Moves
use recsync.Prelude.{
  ℕ, suc, ◌+◌, ◌≤◌, ◌<◌, ◌≡◌, ◌≢◌, ◌⊎◌, refl, Bool, true, false, List, [], ◌∷◌, ◌++◌, Option, none,
  some, Bytes, Result, ok, err, arith, nat_eq, nat_beq, nat_beq_iff, All, if◌then◌else◌, inl, inr,
  Bool-cases, Option-cases, subst,
}
use recsync.Integer.{ℤ, pos, succ, pred, lt_count}
use recsync.Dict
use recsync.Dict.{Dict, get-put, get-pop}
use recsync.Dict.Count.{
  count, bit, NodupKeys, NodupKeys-put, NodupKeys-pop, count-put, count-put_new, count-pop,
  count_pos,
}
use recsync.Recast.Receiver.{Settings, Receiver, connection_made}
use recsync.Recast.Factory.{Factory, set_proto, wait_remove, activate, is_done}
use recsync.Recast.Factory.Quiet.{Quiet, connection_made-Quiet, connection_made_ok}

abbrev pub is_active : Receiver → Bool
is_active r = r.active

abbrev pub active_count : Dict ℕ Receiver → ℕ
active_count d = count is_active d

-- A connection that waits is known, and not active.
abbrev pub IsWaiting : Dict ℕ Receiver → ℕ → Type 0
IsWaiting d j = (r : Receiver) × (Dict.get d j ≡ some r) × (r.active ≡ false)

abbrev pub NotIn : ℕ → List ℕ → Type 0
NotIn i [] = Unit {0}
NotIn i (j ∷ js) = (nat_beq j i ≡ false) × NotIn i js

abbrev pub Nodup : List ℕ → Type 0
Nodup [] = Unit {0}
Nodup (j ∷ js) = NotIn j js × Nodup js

abbrev pub AllZero : Dict ℕ Receiver → Type 0
AllZero [] = Unit {0}
AllZero ((i, r) ∷ d) = (r.version ≡ 0) × AllZero d

-- `used` slots are taken; `owed` connections have given theirs back and are still marked active.
pub record Balanced (owed : ℕ) (f : Factory) : Type 0 where
  pub used : ℕ
  pub counted : f.n_active ≡ pos used
  pub tally : used + owed ≡ active_count f.protos
  pub bounded : used ≤ f.max_active
  pub waiting : All (IsWaiting f.protos) f.wait
  pub distinct : Nodup f.wait
  pub full : (f.wait ≡ []) ⊎ (used ≡ f.max_active)
  pub keys : NodupKeys f.protos
  pub versions : AllZero f.protos

pub AllZero-put :
    (d : Dict ℕ Receiver) (i : ℕ) (r : Receiver)
    → AllZero d
    → r.version ≡ 0
    → AllZero (Dict.put d i r)
unfolding Dict.put
AllZero-put [] i r h z = (z, tt)
AllZero-put ((j, w) ∷ d) i r h z = ground (arith, AllZero-put d i r h.1 z)

pub AllZero-pop : (d : Dict ℕ Receiver) (i : ℕ) → AllZero d → AllZero (Dict.pop d i)
unfolding Dict.pop
AllZero-pop [] i h = tt
AllZero-pop ((j, w) ∷ d) i h = ground (arith, AllZero-pop d i h.1)

pub AllZero-get :
    (d : Dict ℕ Receiver) (i : ℕ) (r : Receiver) → AllZero d → Dict.get d i ≡ some r → r.version ≡ 0
unfolding Dict.get
AllZero-get [] i r h e = ground arith
AllZero-get ((j, w) ∷ d) i r h e = ground (arith, AllZero-get d i r h.1)

-- Writing an inactive receiver leaves the queue as it is.
pub IsWaiting-put :
    (d : Dict ℕ Receiver) (i : ℕ) (r : Receiver) (js : List ℕ)
    → r.active ≡ false
    → All (IsWaiting d) js
    → All (IsWaiting (Dict.put d i r)) js
IsWaiting-put d i r [] off h = tt
IsWaiting-put d i r (j ∷ js) off ((w, e, a), h) = (
  elim (Bool-cases (nat_beq i j)) [
    | inl same ↦ (r, ground (arith, get-put d i j r), off)
    | inr other ↦ (w, ground (arith, get-put d i j r), a)
  ],
  IsWaiting-put d i r js off h,
)

pub IsWaiting-put_other :
    (d : Dict ℕ Receiver) (i : ℕ) (r : Receiver) (js : List ℕ)
    → NotIn i js
    → All (IsWaiting d) js
    → All (IsWaiting (Dict.put d i r)) js
IsWaiting-put_other d i r [] n h = tt
IsWaiting-put_other d i r (j ∷ js) n ((w, e, a), h) = (
  (w, ground (arith, get-put d i j r, nat_beq_iff i j, nat_beq_iff j i), a),
  IsWaiting-put_other d i r js n.1 h,
)

pub IsWaiting-pop :
    (d : Dict ℕ Receiver) (i : ℕ) (js : List ℕ)
    → NotIn i js
    → All (IsWaiting d) js
    → All (IsWaiting (Dict.pop d i)) js
IsWaiting-pop d i [] n h = tt
IsWaiting-pop d i (j ∷ js) n ((w, e, a), h) = (
  (w, ground (arith, get-pop d i j, nat_beq_iff i j, nat_beq_iff j i), a),
  IsWaiting-pop d i js n.1 h,
)

-- An active connection does not wait.
pub active-NotIn :
    (d : Dict ℕ Receiver) (i : ℕ) (r : Receiver) (js : List ℕ)
    → Dict.get d i ≡ some r
    → r.active ≡ true
    → All (IsWaiting d) js
    → NotIn i js
active-NotIn d i r [] e a h = tt
active-NotIn d i r (j ∷ js) e a ((w, e', off), h) =
    (ground (arith, nat_beq_iff j i), active-NotIn d i r js e a h)

pub All-wait_remove : (P : ℕ → Type 0) (js : List ℕ) (i : ℕ) → All P js → All P (wait_remove js i)
unfolding wait_remove
All-wait_remove P [] i h = tt
All-wait_remove P (j ∷ js) i h = elim (Bool-cases (nat_beq j i)) [
  | inl same ↦ rw same h.1
  | inr other ↦ rw other (h.0, All-wait_remove P js i h.1)
]

NotIn-wait_remove : (js : List ℕ) (k i : ℕ) → NotIn k js → NotIn k (wait_remove js i)
unfolding wait_remove
NotIn-wait_remove [] k i h = tt
NotIn-wait_remove (j ∷ js) k i h = ground (arith, NotIn-wait_remove js k i h.1)

pub Nodup-wait_remove : (js : List ℕ) (i : ℕ) → Nodup js → Nodup (wait_remove js i)
unfolding wait_remove
Nodup-wait_remove [] i h = tt
Nodup-wait_remove (j ∷ js) i h =
    ground (arith, Nodup-wait_remove js i h.1, NotIn-wait_remove js j i h.0)

pub wait_remove-NotIn : (js : List ℕ) (i : ℕ) → Nodup js → NotIn i (wait_remove js i)
unfolding wait_remove
wait_remove-NotIn [] i h = tt
wait_remove-NotIn (j ∷ js) i h = ground (arith, wait_remove-NotIn js i h.1, nat_beq_iff j i)

NotIn-append : (k i : ℕ) (js : List ℕ) → NotIn k js → nat_beq i k ≡ false → NotIn k (js ++ i ∷ [])
NotIn-append k i [] n e = (e, tt)
NotIn-append k i (j ∷ js) n e = (n.0, NotIn-append k i js n.1 e)

pub Nodup-append : (js : List ℕ) (i : ℕ) → Nodup js → NotIn i js → Nodup (js ++ i ∷ [])
Nodup-append [] i h n = (tt, tt)
Nodup-append (j ∷ js) i h n =
    (NotIn-append j i js h.0 (ground (arith, n.0)), Nodup-append js i h.1 n.1)
