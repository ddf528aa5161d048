-- ===== src/Cf/Commit/Settled.antt =====
-- How a commit ends.
use recsync.Prelude.{
  ℕ, ◌+◌, ◌<◌, ◌≡◌, ◌≢◌, ◌⊎◌, inl, inr, ap, Bool, true, false, not, ◌&&◌, List, map, Option, some,
  Str, Error, Result, ok, err, request_error, cancelled_error, str_eq, arith,
}
use recsync.Dict
use recsync.Dict.{Dict}
use recsync.Recast.Transaction.{Transaction}
use recsync.Cf.Config.{CfConfig}
use recsync.Cf.Model.{IocInfo, id, RecordInfo, Name, number}
use recsync.Cf.Records.{Whitelist}
use recsync.Cf.Registry.{Registry, evict_ioc}
use recsync.Cf.Registry.Agreement.{IsAgreed}
use recsync.Cf.Registry.Updates.{update_ioc_infos-IsAgreed}
use recsync.Cf.Registry.Evict.{IsEvicted, evict_ioc-IsEvicted}
use recsync.Cf.Adapter.{Client}
use recsync.Cf.Push.Attempts.{
  Refused, Ends, stopped, gave_up, pushed as was_pushed, raised as was_raised, push_to_cf-Pushed,
}
use recsync.Cf.Update.{update_channelfinder}
use recsync.Cf.Update.Wrote.{Wrote, update_channelfinder-Wrote}
use recsync.Cf.Commit.{
  ioc_name_of, check_ioc_name, ioc_info_of, given_up, after_push, push, pushed, records_of, updated,
  commit,
}

module _ {ℓ} {W : Type ℓ} (client : Client W) (c : CfConfig) (managed : List Str)
    (running cancelled : W → Bool) (reg : Registry) (ioc : IocInfo) (records : Dict Str RecordInfo)
    (deleted : List Name) where
  -- the update of ChannelFinder, as each attempt of the commit makes it
  abbrev pub update : W → Result (Unit {0}) × W
  update = update_channelfinder client c cancelled managed reg ioc records deleted

  -- How a commit ends that made `n` attempts from `w`, which the service refused, up to the world `v`:
  -- the next attempt wrote, or there is none and nothing in the tables names the IOC, or the next
  -- attempt raised.
  pub data Settled (w : W) : Option (Result (Unit {0}) × (Registry × W)) → Type ℓ where
    written :
        (n : ℕ) (v v' : W)
        → Refused c running update n w v
        → n < c.push_max_retries
        → running v ≡ true
        → Wrote client c cancelled managed reg ioc records deleted v v'
        → Settled w (some (ok tt, (reg, v')))
    evicted :
        (n : ℕ) (reg' : Registry) (v : W)
        → Refused c running update n w v
        → (n ≡ c.push_max_retries) ⊎ (running v ≡ false)
        → IsEvicted (id ioc) (ok tt, reg')
        → Settled w (some (err cancelled_error, (reg', v)))
    raised :
        (n : ℕ) (e : Error) (v v' : W)
        → Refused c running update n w v
        → n < c.push_max_retries
        → running v ≡ true
        → update v ≡ (err e, v')
        → e ≢ request_error
        → Settled w (some (err e, (reg, v')))

  given_up-Settled :
      (n : ℕ) (w v : W) (out : Result (Unit {0}) × Registry)
      → Refused c running update n w v
      → (n ≡ c.push_max_retries) ⊎ (running v ≡ false)
      → IsEvicted (id ioc) out
      → Settled w (given_up v out)
  unfolding given_up
  given_up-Settled n w v (ok _, reg') r why gone = evicted n reg' v r why gone
  given_up-Settled n w v (err e, reg') r why gone = absurd (no_such gone.returned)
    where
      no_such : {e : Error} → ◌≡◌ {A = Result (Unit {0})} (err e) (ok tt) → ⊥
      no_such h = cc

  after_push-Settled :
      (n : ℕ) (w v : W) (result : Result Bool) (v' : W)
      → IsAgreed reg
      → Refused c running update n w v
      → Ends c running update (0 + n) v result v'
      → Settled w (after_push true (id ioc) reg (some (result, v')))
  unfolding after_push
  after_push-Settled n w v (ok false) v' a r (stopped _ off) =
      given_up-Settled n w v (evict_ioc (id ioc) reg) r (inr off)
        (evict_ioc-IsEvicted (id ioc) reg a)
  after_push-Settled n w v (ok false) v' a r (gave_up all) =
      given_up-Settled n w v (evict_ioc (id ioc) reg) r (inl (omega (arith, all)))
        (evict_ioc-IsEvicted (id ioc) reg a)
  after_push-Settled n w v (ok true) v' a r (was_pushed room on e) =
      let done : update v ≡ (ok tt, (update v).1) = ap (λ x. (x, (update v).1)) e in
      written n v (update v).1 r (omega (arith, room)) on (
        update_channelfinder-Wrote client c cancelled managed reg ioc records deleted v (update v).1
          done)
  after_push-Settled n w v (err e) v' a r (was_raised e' room on other q) =
      raised n e v (update v).1 r (omega (arith, room)) on (ap (λ x. (x, (update v).1)) q) other

updated-IsAgreed :
    (c : CfConfig) (list : Whitelist) (time : Str) (t : Transaction) (reg : Registry)
    → IsAgreed reg
    → (updated c list time t reg).0.0 ≡ ok tt
    → IsAgreed (updated c list time t reg).0.1
unfolding updated
updated-IsAgreed c list time t reg a h =
    let ioc = ioc_info_of c time t in
    update_ioc_infos-IsAgreed c t ioc (map number t.records_to_delete) (records_of c list ioc t) reg
      a h

connected_goes_on :
    (connected known : Bool) → connected ≡ true → (not connected && not known) ≡ false
connected_goes_on connected known on = ground arith

module _ {ℓ} {W : Type ℓ} (client : Client W) (c : CfConfig) (list : Whitelist) (managed : List Str)
    (running cancelled : W → Bool) where
  pushed-Settled :
      (t : Transaction) (ioc : IocInfo) (records : Dict Str RecordInfo)
      (out : (Result (Unit {0}) × Registry) × List Name) (w : W)
      → c.push_always_retry ≡ false
      → t.connected ≡ true
      → IsAgreed out.0.1
      → out.0.0 ≡ ok tt
      → Settled client c managed running cancelled out.0.1 ioc records out.1 w (
          pushed client c list managed running cancelled
            (c.push_max_retries + 1)
            t
            ioc
            records
            out
            w)
  unfolding pushed push
  pushed-Settled t ioc records ((err e, reg), deleted) w once on a h = cc
  pushed-Settled t ioc records ((ok u, reg), deleted) w once on a h =
      let p =
        push_to_cf-Pushed c running
          (update client c managed running cancelled reg ioc records deleted) w once in
      rw (on, p.returned)
        (after_push-Settled client c managed running cancelled reg ioc records deleted p.attempts w
          p.before p.result p.after a p.refused p.ends)

  -- While the processor runs and is not to retry always, the commit of a connected IOC whose name,
  -- if it consists of digits, is one that int takes, and whose tables are agreed and updated
  -- without an exception ends after at most pushMaxRetries refused attempts. It returns, with the
  -- tables as updated, after an attempt that looked the old channels of the IOC up and handled
  -- them, looked the new ones up, merged them, and sent the channels that result to ChannelFinder,
  -- unless there were none and none old; or gives up with CancelledError, since no attempts are
  -- left or the processor has stopped, and then the IOC is evicted; or raises what the last
  -- attempt raised, which is no request error.
  pub commit-Settled :
      (time : Str) (t : Transaction) (reg : Registry) (w : W)
      → c.push_always_retry ≡ false
      → running w ≡ true
      → check_ioc_name (ioc_name_of t) ≡ ok tt
      → t.connected ≡ true
      → IsAgreed reg
      → (updated c list time t reg).0.0 ≡ ok tt
      → let ioc = ioc_info_of c time t in
        let ((_, reg'), deleted) = updated c list time t reg in
        Settled client c managed running cancelled reg' ioc
          (records_of c list ioc t)
          deleted
          w
          (commit client c list managed running cancelled (c.push_max_retries + 1) time t reg w)
  unfolding commit
  commit-Settled time t reg w once runs named on a h =
      let ioc = ioc_info_of c time t in
      let a' = updated-IsAgreed c list time t reg a h in
      let done =
        pushed-Settled t ioc (records_of c list ioc t) (updated c list time t reg) w once on a' h in
      let known : (not t.connected && not (Dict.contains reg.iocs (id ioc))) ≡ false =
        connected_goes_on t.connected (Dict.contains reg.iocs (id ioc)) on in
      rw (runs, named, known) done
