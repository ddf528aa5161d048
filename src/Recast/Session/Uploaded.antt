-- ===== src/Recast/Session/Uploaded.antt =====
-- What a session's transactions amount to: the record that each id names, once all that was
-- chained and the open transaction are committed in order.
use recsync.Prelude.{
  ℕ, ◌≡◌, refl, List, [], ◌∷◌, ◌++◌, Option, none, some, Str, arith, nat_eq, nat_beq, ap, inl, inr,
  Bool-cases, if◌then◌else◌,
}
use recsync.Dict
use recsync.Dict.{get-put, get-pop}
use recsync.Sets.{set_contains, set_contains-add}
use recsync.Recast.Transaction.{Transaction}
use recsync.Recast.Session.{
  Session, flush, flush_safely, put_record, drop_record, add_record, del_record,
}
use recsync.Recast.Session.Calls.{Call, info, add, alias, del, rec, upload_done, call}

-- The name and the type of each record.
abbrev pub Records : Type 0
Records = ℕ → Option (Str × Str)

-- A commit replaces the records that it adds and removes those that it only deletes.
abbrev pub committed : Transaction → Records → Records
committed t v id = elim (Dict.get t.records_to_add id) [
  | some r ↦ some r
  | none ↦ if set_contains t.records_to_delete id then none else v id
]

abbrev pub committed_all : List Transaction → Records → Records
committed_all [] v = v
committed_all (t ∷ ts) v = committed_all ts (committed t v)

abbrev pub uploaded : Session → Records
uploaded s = committed s.transaction (committed_all s.commit_chain (λ _. none))

committed_all-append :
    (ts : List Transaction) (t : Transaction) (v : Records)
    → committed_all (ts ++ t ∷ []) v ≡ committed t (committed_all ts v)
committed_all-append [] t v = refl
committed_all-append (x ∷ ts) t v = committed_all-append ts t (committed x v)

-- Flushing moves records and loses none.
uploaded-flush : (s : Session) (id : ℕ) → uploaded (flush s) id ≡ uploaded s id
unfolding flush Dict.get set_contains
uploaded-flush s id = elim (Bool-cases s.dirty) [
  | inl dirty ↦
      rw dirty (ap (λ (v : Records). v id) (committed_all-append s.commit_chain s.transaction _))
  | inr clean ↦ rw clean
]

uploaded-flush_safely :
    (now : ℕ) (s : Session) (id : ℕ) → uploaded (flush_safely now s) id ≡ uploaded s id
unfolding flush_safely
uploaded-flush_safely now s id = ground (arith, uploaded-flush s id)

uploaded-put :
    (i : ℕ) (type name : Str) (s : Session) (j : ℕ)
    → uploaded (put_record i type name s) j
      ≡ (if nat_beq i j then some (name, type) else uploaded s j)
unfolding put_record
uploaded-put i type name s j = ground (arith, get-put s.transaction.records_to_add i j (name, type))

uploaded-drop :
    (i : ℕ) (s : Session) (j : ℕ)
    → uploaded (drop_record i s) j ≡ (if nat_beq i j then none else uploaded s j)
unfolding drop_record
uploaded-drop i s j = ground (
  arith,
  get-pop s.transaction.records_to_add i j,
  set_contains-add s.transaction.records_to_delete i j,
)

-- The records that a call leaves, given those before it.
abbrev pub after_call : Call → Records → Records
after_call (add i type name) v j = if nat_beq i j then some (name, type) else v j
after_call (del i) v j = if nat_beq i j then none else v j
after_call _ v j = v j

-- The records that a session's chained transactions and its open one amount to, committed in
-- order, change with each call by exactly what the call says, wherever the flushes fall.
pub uploaded-call :
    (c : Call) (now : ℕ) (s : Session) (j : ℕ)
    → uploaded (call c now s) j ≡ after_call c (uploaded s) j
unfolding call add_record del_record
uploaded-call (info key val) now s j = refl
uploaded-call (add i type name) now s j =
    ground (arith, uploaded-put i type name (flush_safely now s) j, uploaded-flush_safely now s j)
uploaded-call (alias id name) now s j = refl
uploaded-call (del i) now s j =
    ground (arith, uploaded-drop i (flush_safely now s) j, uploaded-flush_safely now s j)
uploaded-call (rec id key val) now s j = refl
uploaded-call upload_done now s j = uploaded-flush s j
