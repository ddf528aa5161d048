-- ===== src/Recast/Session/NotSplit.antt =====
-- The comment over flush_safely: a record is not split from its infos and aliases. And close.
use recsync.Prelude.{
  ℕ, ◌≡◌, refl, ◌∙◌, false, List, [], ◌∷◌, ◌++◌, some, Str, arith, nat_eq, nat_beq_iff, Result,
}
use recsync.Dict
use recsync.Dict.{get-put}
use recsync.Recast.Transaction.{Transaction, new_transaction}
use recsync.Recast.Session.{Session, close, flush_safely, add_record, run_chain}
use recsync.Recast.Session.Calls.{Call, info, add, alias, del, rec, upload_done, call, calls}

-- The calls that describe a record, or the client.
abbrev pub Describes : List (Call × ℕ) → Type 0
Describes [] = Unit {0}
Describes ((info k v, now) ∷ cs) = Describes cs
Describes ((alias id n, now) ∷ cs) = Describes cs
Describes ((rec id k v, now) ∷ cs) = Describes cs
Describes ((_, now) ∷ cs) = ⊥

-- Describing calls chain nothing and leave the added records alone.
describing :
    (cs : List (Call × ℕ)) (s : Session)
    → Describes cs
    → ((calls cs s).commit_chain ≡ s.commit_chain)
      × ((calls cs s).transaction.records_to_add ≡ s.transaction.records_to_add)
unfolding calls call
describing [] s d = (refl, refl)
describing ((info k v, now) ∷ cs) s d = describing cs (call (info k v) now s) d
describing ((add i t n, now) ∷ cs) s d = absurd d
describing ((alias i n, now) ∷ cs) s d = describing cs (call (alias i n) now s) d
describing ((del i, now) ∷ cs) s d = absurd d
describing ((rec i k v, now) ∷ cs) s d = describing cs (call (rec i k v) now s) d
describing ((upload_done, now) ∷ cs) s d = absurd d

-- After add_record, and while only infos and aliases follow, the record stays in the open
-- transaction and nothing is chained but what add_record flushed before it.
pub record_not_split :
    (i : ℕ) (type name : Str) (now : ℕ) (s : Session) (cs : List (Call × ℕ))
    → Describes cs
    → let s' = calls cs (add_record i type name now s) in
      (Dict.get s'.transaction.records_to_add i ≡ some (name, type))
      × (s'.commit_chain ≡ (flush_safely now s).commit_chain)
unfolding add_record
record_not_split i type name now s cs d =
    let (chained, kept) = describing cs (add_record i type name now s) d in
    (rw kept (get-put _ i i _ ∙ ground (arith, nat_beq_iff i i)), chained)

-- The transaction that close chains.
abbrev pub disconnect : Session → Transaction
disconnect s = record (new_transaction s.ep s.id) { connected = false }

module _ {ℓ} {W : Type ℓ} (commit : Transaction → W → Result (Unit {0}) × W) where
  run_chain-append :
      (ts : List Transaction) (t : Transaction) (w : W)
      → (run_chain commit (ts ++ t ∷ []) w).1 ≡ (commit t (run_chain commit ts w).1).1
  unfolding run_chain
  run_chain-append [] t w = refl
  run_chain-append (x ∷ ts) t w = run_chain-append ts t (commit x w).1

  -- Whatever the earlier commits raise, the chain of a closed session ends with the commit of its
  -- disconnect, in the state that all of them left.
  pub disconnect_committed_last :
      (s : Session) (w : W)
      → (run_chain commit (close s).commit_chain w).1
        ≡ (commit (disconnect s) (run_chain commit s.commit_chain w).1).1
  unfolding close
  disconnect_committed_last s w = run_chain-append s.commit_chain (disconnect s) w
