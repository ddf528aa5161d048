-- ===== src/Recast/Session/Lifetime.antt =====
-- A session from its start to its close.
use recsync.Prelude.{ℕ, ◌≡◌, refl, Bool, false, List, [], ◌∷◌, ◌++◌}
use recsync.Recast.Transaction.{Address, Transaction, new_transaction}
use recsync.Recast.Session.{Session, open_session, close, flush}
use recsync.Recast.Session.Calls.{Call, calls}
use recsync.Recast.Session.Invariant.{
  NoneInitial, FirstInitial, IsConsistent, NoneInitial-append, calls-keep,
  open_session-IsConsistent,
}

-- No transaction but the first of the list is initial.
abbrev pub RestNotInitial : List Transaction → Type 0
RestNotInitial [] = Unit {0}
RestNotInitial (t ∷ ts) = NoneInitial ts

close-RestNotInitial : (s : Session) → IsConsistent s → RestNotInitial (close s).commit_chain
unfolding close flush new_transaction
close-RestNotInitial s h = chained _ s.commit_chain s.transaction.initial h.first refl
  where
    chained :
        (t : Transaction) (ts : List Transaction) (now : Bool)
        → FirstInitial ts now
        → t.initial ≡ false
        → RestNotInitial (ts ++ t ∷ [])
    chained t [] now f e = tt
    chained t (x ∷ ts) now f e = NoneInitial-append ts t f.1 e

-- Whatever updates and ends of an upload are called on a new session before its close, of the
-- transactions that it has made, the open one included, exactly the first is initial; the open one
-- holds at most trlimit records, unless that is 0, and no records, aliases, infos or deletions
-- while not dirty; and if the session is closed then, no transaction that it has chained but the
-- first is initial.
pub calls-IsConsistent :
    (timeout trlimit : ℕ) (ep : Address) (id : ℕ) (cs : List (Call × ℕ))
    → let s = calls cs (open_session timeout trlimit ep id) in
      IsConsistent s × RestNotInitial (close s).commit_chain
calls-IsConsistent timeout trlimit ep id cs =
    let h = calls-keep cs _ (open_session-IsConsistent timeout trlimit ep id) in
    (h, close-RestNotInitial _ h)
