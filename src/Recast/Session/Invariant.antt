-- ===== src/Recast/Session/Invariant.antt =====
-- What holds of a session between its calls.
use recsync.Prelude.{
  ℕ, zero, suc, ◌∙◌, ◌⊎◌, ◌+◌, ◌≤◌, ◌<◌, ◌≡◌, refl, Bool, true, false, List, [], ◌∷◌, ◌++◌, Str,
  arith, inl, inr, Bool-cases, length, nat_eq,
}
use recsync.Dict
use recsync.Dict.{Dict}
use recsync.Sets.{set_add}
use recsync.Recast.Transaction.{Address, Transaction}
use recsync.Recast.Session.{
  Session, open_session, flush, flush_safely, put_record, drop_record, pending, add_record,
  del_record,
}
use recsync.Recast.Session.Calls.{Call, info, add, alias, del, rec, upload_done, call, calls}

-- Only the first transaction of a connection is initial.
abbrev pub NoneInitial : List Transaction → Type 0
NoneInitial [] = Unit {0}
NoneInitial (t ∷ ts) = (t.initial ≡ false) × NoneInitial ts

abbrev pub FirstInitial : List Transaction → Bool → Type 0
FirstInitial [] now = now ≡ true
FirstInitial (t ∷ ts) now = (t.initial ≡ true) × NoneInitial ts × (now ≡ false)

pub record IsConsistent (s : Session) : Type 0 where
  -- what is not marked dirty has nothing to commit but the client's infos
  pub clean :
      (s.dirty ≡ true)
      ⊎ ((s.transaction.records_to_add ≡ [])
          × (s.transaction.records_to_delete ≡ [])
          × (s.transaction.aliases ≡ [])
          × (s.transaction.record_infos_to_add ≡ []))
  pub first : FirstInitial s.commit_chain s.transaction.initial
  pub bounded : (s.trlimit ≡ 0) ⊎ (pending s ≤ s.trlimit)

pub NoneInitial-append :
    (ts : List Transaction) (t : Transaction)
    → NoneInitial ts
    → t.initial ≡ false
    → NoneInitial (ts ++ t ∷ [])
NoneInitial-append [] t h e = (e, tt)
NoneInitial-append (x ∷ ts) t h e = (h.0, NoneInitial-append ts t h.1 e)

FirstInitial-append :
    (ts : List Transaction) (t : Transaction)
    → FirstInitial ts t.initial
    → FirstInitial (ts ++ t ∷ []) false
FirstInitial-append [] t h = (h, tt, refl)
FirstInitial-append (x ∷ ts) t h = (h.0, NoneInitial-append ts t h.1 h.2, refl)

length-put_le :
    (d : Dict ℕ (Str × Str)) (k : ℕ) (v : Str × Str) → length (Dict.put d k v) ≤ length d + 1
unfolding Dict.put
length-put_le [] k v = omega arith
length-put_le ((j, w) ∷ d) k v = ground (arith, length-put_le d k v)

length-pop_le : (d : Dict ℕ (Str × Str)) (k : ℕ) → length (Dict.pop d k) ≤ length d
unfolding Dict.pop
length-pop_le [] k = omega arith
length-pop_le ((j, w) ∷ d) k = ground (arith, length-pop_le d k)

length-set_add_le : (s : List ℕ) (k : ℕ) → length (set_add s k) ≤ length s + 1
unfolding set_add
length-set_add_le s k = ground arith

nat-zero : (n : ℕ) → (n ≡ 0) ⊎ (0 < n)
nat-zero zero = inl refl
nat-zero (suc n) = inr (omega arith)

pub flush-IsConsistent : (s : Session) → IsConsistent s → IsConsistent (flush s)
unfolding flush
flush-IsConsistent s h = elim (Bool-cases s.dirty) [
  | inl yes' ↦ rw yes' (record {
    clean = inr (refl, refl, refl, refl);
    first = FirstInitial-append s.commit_chain s.transaction h.first;
    bounded = inr (omega arith);
  })
  | inr clean' ↦ rw clean' (record {
    clean = elim h.clean [ inl dirty ↦ absurd cc | inr nothing ↦ inr nothing ];
    first = h.first;
    bounded = h.bounded;
  })
]

pub flush_safely-IsConsistent :
    (now : ℕ) (s : Session) → IsConsistent s → IsConsistent (flush_safely now s)
unfolding flush_safely
flush_safely-IsConsistent now s h = ground (arith, flush-IsConsistent s h)

pub pending-flush : (s : Session) → IsConsistent s → pending (flush s) ≡ 0
unfolding flush
pending-flush s h = elim h.clean [
  | inl dirty ↦ rw (dirty, flush)
  | inr nothing ↦ ground (arith, nothing)
]

-- After it there is room for one more record.
flush_safely-room :
    (now : ℕ) (s : Session)
    → IsConsistent s
    → 0 < s.trlimit
    → pending (flush_safely now s) < s.trlimit
unfolding flush_safely
flush_safely-room now s h p = ground (arith, pending-flush s h, h.bounded)

trlimit-flush_safely : (now : ℕ) (s : Session) → (flush_safely now s).trlimit ≡ s.trlimit
unfolding flush_safely
trlimit-flush_safely now s = ground arith

room_for_one :
    (now : ℕ) (s : Session) {n limit : ℕ}
    → IsConsistent s
    → limit ≡ s.trlimit
    → n ≤ pending (flush_safely now s) + 1
    → (limit ≡ 0) ⊎ (n ≤ limit)
room_for_one now s {n} {limit} h e le = elim (nat-zero s.trlimit) [
  | inl unbounded ↦ inl (e ∙ unbounded)
  | inr some_limit ↦ inr (omega (arith, flush_safely-room now s h some_limit))
]

pending-put_record :
    (id : ℕ) (type name : Str) (s : Session) → pending (put_record id type name s) ≤ pending s + 1
unfolding put_record
pending-put_record id type name s =
    omega (arith, length-put_le s.transaction.records_to_add id (name, type))

pending-drop_record : (id : ℕ) (s : Session) → pending (drop_record id s) ≤ pending s + 1
unfolding drop_record
pending-drop_record id s = omega (
  arith,
  length-pop_le s.transaction.records_to_add id,
  length-set_add_le s.transaction.records_to_delete id,
)

add-IsConsistent :
    (id : ℕ) (type name : Str) (now : ℕ) (s : Session)
    → IsConsistent s
    → IsConsistent (add_record id type name now s)
unfolding add_record
add-IsConsistent id type name now s h =
    let t = flush_safely now s in
    record {
      clean = inl refl;
      first = (flush_safely-IsConsistent now s h).first;
      bounded =
          room_for_one now s h (trlimit-flush_safely now s) (pending-put_record id type name t);
    }

del-IsConsistent : (id now : ℕ) (s : Session) → IsConsistent s → IsConsistent (del_record id now s)
unfolding del_record
del-IsConsistent id now s h =
    let t = flush_safely now s in
    record {
      clean = inl refl;
      first = (flush_safely-IsConsistent now s h).first;
      bounded = room_for_one now s h (trlimit-flush_safely now s) (pending-drop_record id t);
    }

pub call-IsConsistent :
    (c : Call) (now : ℕ) (s : Session) → IsConsistent s → IsConsistent (call c now s)
unfolding call
call-IsConsistent (info key val) now s h = record {
  clean = inl refl;
  first = h.first;
  bounded = h.bounded;
}
call-IsConsistent (add id type name) now s h = add-IsConsistent id type name now s h
call-IsConsistent (alias id name) now s h = record {
  clean = inl refl;
  first = h.first;
  bounded = h.bounded;
}
call-IsConsistent (del id) now s h = del-IsConsistent id now s h
call-IsConsistent (rec id key val) now s h = record {
  clean = inl refl;
  first = h.first;
  bounded = h.bounded;
}
call-IsConsistent upload_done now s h = flush-IsConsistent s h

pub calls-keep : (cs : List (Call × ℕ)) (s : Session) → IsConsistent s → IsConsistent (calls cs s)
unfolding calls
calls-keep [] s h = h
calls-keep ((c, now) ∷ cs) s h = calls-keep cs (call c now s) (call-IsConsistent c now s h)

pub open_session-IsConsistent :
    (timeout trlimit : ℕ) (ep : Address) (id : ℕ)
    → IsConsistent (open_session timeout trlimit ep id)
unfolding open_session
open_session-IsConsistent timeout trlimit ep id = record {
  clean = inr (refl, refl, refl, refl);
  first = refl;
  bounded = inr (omega arith);
}
