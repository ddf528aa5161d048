-- ===== src/Recast/Session.antt =====
-- `CollectionSession`: the transaction that a connection gathers, and when it is committed.
-- Times are whole ticks of the clock; `now` is `time.time()`. The commit chain is the list of the
-- transactions that were chained, the oldest first: Twisted runs them in this order.
pub mod Calls
pub mod Invariant
pub mod Lifetime
pub mod Uploaded
pub mod NotSplit
use recsync.Prelude.{
  ℕ, ◌+◌, [], ◌∷◌, ◌++◌, Bool, true, false, not, ◌&&◌, List, Option, none, some, Str, Error, Result,
  ok, err, cancelled_error, nat_eq, str_eq, length, leb, nat_beq, if◌then◌else◌,
}
use recsync.Dict
use recsync.Dict.{Dict, list_or_empty}
use recsync.Sets.{set_add}
use recsync.Recast.Transaction.{Address, Transaction, new_transaction}

pub record Session : Type 0 where
  pub ep : Address
  pub id : ℕ
  pub timeout : ℕ
  pub trlimit : ℕ
  pub transaction : Transaction
  pub commit_chain : List Transaction
  pub flush_deadline : Option ℕ
  pub dirty : Bool

-- __init__, with the class's `timeout` and `trlimit`
unfoldable pub open_session : ℕ → ℕ → Address → ℕ → Session
unfolding new_transaction
open_session timeout trlimit ep id = record {
  ep = ep;
  id = id;
  timeout = timeout;
  trlimit = trlimit;
  transaction = record (new_transaction ep id) { initial = true };
  commit_chain = [];
  flush_deadline = none;
  dirty = false;
}

unfoldable pub flush : Session → Session
unfolding new_transaction
flush s = if not s.dirty then record s { flush_deadline = none } else record s {
  transaction = record (new_transaction s.ep s.id) { client_infos = s.transaction.client_infos };
  commit_chain = s.commit_chain ++ s.transaction ∷ [];
  flush_deadline = none;
  dirty = false;
}

unfoldable pub close : Session → Session
unfolding flush
close s = flush (record s {
  transaction = record (new_transaction s.ep s.id) { connected = false };
  dirty = true;
})

-- the truth of a float or None
abbrev pub is_set : Option ℕ → Bool
is_set none = false
is_set (some t) = not (nat_beq t 0)

abbrev pub has_passed : Option ℕ → ℕ → Bool
has_passed none now = false
has_passed (some t) now = leb t now

-- the number of records that the open transaction holds
abbrev pub pending : Session → ℕ
pending s = length s.transaction.records_to_add + length s.transaction.records_to_delete

unfoldable pub flush_safely : ℕ → Session → Session
unfolding flush
flush_safely now s =
    if is_set s.flush_deadline && has_passed s.flush_deadline now
    then flush s
    else if not (nat_beq s.trlimit 0) && leb s.trlimit (pending s)
    then flush s
    else s

unfoldable pub mark_dirty : ℕ → Session → Session
mark_dirty now s = record s {
  flush_deadline = if is_set s.flush_deadline then s.flush_deadline else some (now + s.timeout);
  dirty = true;
}

unfoldable pub done : Session → Session
unfolding flush
done s = flush s

unfoldable pub ioc_info : Str → Str → ℕ → Session → Session
unfolding mark_dirty
ioc_info key val now s = mark_dirty now (record s {
  transaction = record s.transaction { client_infos = Dict.put s.transaction.client_infos key val };
})

-- the second half of add_record
unfoldable pub put_record : ℕ → Str → Str → Session → Session
put_record record_id record_type record_name s = record s {
  transaction = record s.transaction {
    records_to_add = Dict.put s.transaction.records_to_add record_id (record_name, record_type);
  };
}

unfoldable pub add_record : ℕ → Str → Str → ℕ → Session → Session
unfolding flush_safely put_record mark_dirty
add_record record_id record_type record_name now s =
    mark_dirty now (put_record record_id record_type record_name (flush_safely now s))

unfoldable pub add_alias : ℕ → Str → ℕ → Session → Session
unfolding mark_dirty
add_alias record_id record_name now s = mark_dirty now (record s {
  transaction = record s.transaction {
    aliases =
        Dict.put s.transaction.aliases record_id
          (list_or_empty (Dict.get s.transaction.aliases record_id) ++ record_name ∷ []);
  };
})

-- the second half of del_record
unfoldable pub drop_record : ℕ → Session → Session
unfolding set_add
drop_record record_id s = record s {
  transaction = record s.transaction {
    records_to_add = Dict.pop s.transaction.records_to_add record_id;
    records_to_delete = set_add s.transaction.records_to_delete record_id;
    record_infos_to_add = Dict.pop s.transaction.record_infos_to_add record_id;
  };
}

unfoldable pub del_record : ℕ → ℕ → Session → Session
unfolding flush_safely drop_record mark_dirty
del_record record_id now s = mark_dirty now (drop_record record_id (flush_safely now s))

unfoldable pub rec_info : ℕ → Str → Str → ℕ → Session → Session
unfolding mark_dirty
rec_info record_id key val now s = mark_dirty now (record s {
  transaction = record s.transaction {
    record_infos_to_add =
        Dict.put s.transaction.record_infos_to_add record_id
          (Dict.put (list_or_empty (Dict.get s.transaction.record_infos_to_add record_id)) key val);
  };
})

-- The callbacks `commit` and `abort` of flush: `commit` is `factory.commit`, and the flag says that
-- the connection is to be dropped. An exception never stops the chain.
unfoldable pub run_chain {ℓ} :
    {W : Type ℓ} → (Transaction → W → Result (Unit {0}) × W) → List Transaction → W → Bool × W
run_chain commit [] w = (false, w)
run_chain commit (t ∷ ts) w =
    let (r, w') = commit t w in
    let (lost, w'') = run_chain commit ts w' in
    (elim r [ ok _ ↦ lost | err cancelled_error ↦ lost | err _ ↦ true ], w'')
