-- ===== src/Dbstore/Waiting/Closing.antt =====
-- A stopped processor closes its pool.
use recsync.Prelude.{
  ℕ, ◌≤◌, ◌≡◌, refl, [], ◌∷◌, Bool, true, ◌||◌, List, ok, nat_eq, nat_beq_iff, arith,
}
use recsync.Sets.{set_discard, occurs, set_contains-occurs, occurs-discard, occurs-add}
use recsync.Dbstore.Waiting.{Waiting, wait_for, dec_count, stop_service}

-- The deferreds fire in this order.
abbrev pub fire : List ℕ → Waiting → Waiting
fire [] w = w
fire (d ∷ ds) w = fire ds (dec_count d w).1

none_left : (l : List ℕ) → ((x : ℕ) → occurs l x ≡ 0) → l ≡ []
unfolding occurs
none_left [] h = refl
none_left (y ∷ l) h = absurd (ground (arith, h y, nat_beq_iff y y))

-- Each deferred is there once.
abbrev pub Once : List ℕ → Type 0
Once l = (x : ℕ) → occurs l x ≤ 1

-- The same deferreds, as often.
abbrev pub SameItems : List ℕ → List ℕ → Type 0
SameItems l m = (x : ℕ) → occurs l x ≡ occurs m x

fires_next :
    (d : ℕ) (l : List ℕ) (w : Waiting)
    → Once w.ds
    → SameItems (d ∷ l) w.ds
    → dec_count d w ≡ (ok tt, record w { ds = set_discard w.ds d; closed = w.closed || w.done })
unfolding dec_count occurs
fires_next d l w once same =
    rw (set_contains-occurs w.ds d) (ground (arith, same d, nat_beq_iff d d))

rest_same :
    (d : ℕ) (l : List ℕ) (w : Waiting)
    → Once w.ds
    → SameItems (d ∷ l) w.ds
    → SameItems l (set_discard w.ds d)
unfolding occurs
rest_same d l w once same x =
    ground (arith, occurs-discard w.ds d x, same x, once x, nat_beq_iff d x)

rest-Once : (d : ℕ) (w : Waiting) → Once w.ds → Once (set_discard w.ds d)
rest-Once d w once x = ground (arith, occurs-discard w.ds d x, once x)

closed_kept : (a b : Bool) → b ≡ true → (a || b) ≡ true
closed_kept a b h = ground arith

fire-closed :
    (l : List ℕ) (w : Waiting)
    → Once w.ds
    → SameItems l w.ds
    → w.done ≡ true
    → w.closed ≡ true
    → ((fire l w).ds ≡ []) × ((fire l w).closed ≡ true)
fire-closed [] w once same done closed =
    (none_left w.ds (λ x. unfold occurs in ground (arith, same x)), closed)
fire-closed (d ∷ l) w once same done closed =
    rw (fires_next d l w once same, fire)
      (fire-closed l (record w { ds = set_discard w.ds d; closed = w.closed || w.done })
        (rest-Once d w once) (rest_same d l w once same) done (closed_kept w.closed w.done done))

stop-Once : (d : ℕ) (w : Waiting) → Once w.ds → Once (stop_service d w).ds
unfolding stop_service wait_for
stop-Once d w once x =
    ground (arith, occurs-add w.ds d x, once x, set_contains-occurs w.ds d, nat_beq_iff d x)

stop_there : (d : ℕ) (w : Waiting) → 1 ≤ occurs (stop_service d w).ds d
unfolding stop_service wait_for
stop_there d w = ground (arith, occurs-add w.ds d d, set_contains-occurs w.ds d, nat_beq_iff d d)

-- After a stop, once each deferred that the database processor waits for has fired, in whatever
-- order, it waits for none and has closed its pool.
pub stop_service-closes :
    (d : ℕ) (w : Waiting) (l : List ℕ)
    → Once w.ds
    → SameItems l (stop_service d w).ds
    → ((fire l (stop_service d w)).ds ≡ []) × ((fire l (stop_service d w)).closed ≡ true)
stop_service-closes d w [] once same =
    absurd (unfold occurs in omega (arith, same d, stop_there d w))
stop_service-closes d w (x ∷ l) once same =
    let s = stop_service d w in
    let once' = stop-Once d w once in
    rw (fires_next x l s once' same, fire)
      (fire-closed l (record s { ds = set_discard s.ds x; closed = s.closed || s.done })
        (rest-Once x s once') (rest_same x l s once' same) (unfold stop_service in refl)
        (unfold stop_service in closed_kept w.closed true refl))
