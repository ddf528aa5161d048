-- ===== src/Cf/Commit.antt =====
-- _commit_with_thread of cf/processor.py: one commit, from the transaction to ChannelFinder. The
-- result is `none` where the fuel of the push runs out.
pub mod Settled
use recsync.Prelude.{
  ℕ, zero, suc, [], ◌∷◌, Bool, true, false, not, ◌&&◌, List, map, Option, none, some, Str, codes,
  Result, ok, err, cancelled_error, value_error, guard, str_eq, if◌then◌else◌,
}
use recsync.Integer.{pos}
use recsync.Dict
use recsync.Dict.{Dict}
use recsync.Text.Digits.{isdigit, int_accepts}
use recsync.Recast.Transaction.{Transaction}
use recsync.Cf.Config.{CfConfig}
use recsync.Cf.Model.{IocInfo, id, decimal, RecordInfo, Name, number}
use recsync.Cf.Records.{Whitelist, transaction_to_record_infos, record_info_by_name}
use recsync.Cf.Registry.{Registry, update_ioc_infos, evict_ioc}
use recsync.Cf.Adapter.{Client}
use recsync.Cf.Push.{push_to_cf}
use recsync.Cf.Update.{update_channelfinder}

-- d.get(key) or other
unfoldable pub get_or : Dict Str Str → Str → Str → Str
get_or d key other = elim (Dict.get d key) [
  | none ↦ other
  | some v ↦ elim v [ [] ↦ other | x ∷ rest ↦ x ∷ rest ]
]

-- The name of the IOC, or its port.
unfoldable pub ioc_name_of : Transaction → Str
unfolding get_or decimal
ioc_name_of t = get_or t.client_infos (codes "IOCNAME") (decimal t.source_address.port)

-- The test for a name that looks like a port, which is for the log; its int() may raise.
unfoldable pub check_ioc_name : Str → Result (Unit {0})
unfolding isdigit int_accepts
check_ioc_name name = if isdigit name then guard (int_accepts name) value_error else ok tt

-- `time` is the current time as a text.
unfoldable pub ioc_info_of : CfConfig → Str → Transaction → IocInfo
unfolding get_or ioc_name_of
ioc_info_of c time t =
    let host = t.source_address.host in
    let port = t.source_address.port in
    record {
      host = host;
      hostname = get_or t.client_infos (codes "HOSTNAME") host;
      ioc_name = ioc_name_of t;
      ioc_ip = host;
      owner =
          get_or t.client_infos c.env_owner_variable
            (get_or t.client_infos (codes "CF_USERNAME") c.username);
      time = time;
      port = port;
      channelcount = pos 0;
    }

unfoldable pub records_of : CfConfig → Whitelist → IocInfo → Transaction → Dict Str RecordInfo
unfolding transaction_to_record_infos record_info_by_name
records_of c list ioc t = record_info_by_name (transaction_to_record_infos c list ioc t)

-- the tables after update_ioc_infos, with the records to delete
unfoldable pub updated :
    CfConfig → Whitelist → Str → Transaction → Registry → (Result (Unit {0}) × Registry) × List Name
unfolding ioc_info_of records_of update_ioc_infos
updated c list time t reg =
    let ioc = ioc_info_of c time t in
    update_ioc_infos c t ioc (map number t.records_to_delete) (records_of c list ioc t) reg

-- After a push that gave up the IOC is evicted, unless it is gone anyway.
module _ {ℓ} {W : Type ℓ} where
  given_up : W → Result (Unit {0}) × Registry → Option (Result (Unit {0}) × (Registry × W))
  given_up w (ok _, reg) = some (err cancelled_error, (reg, w))
  given_up w (err e, reg) = some (err e, (reg, w))

  unfoldable pub after_push :
      Bool → Str → Registry → Option (Result Bool × W) → Option (Result (Unit {0}) × (Registry × W))
  unfolding evict_ioc given_up
  after_push connected iocid reg none = none
  after_push connected iocid reg (some (err e, w)) = some (err e, (reg, w))
  after_push connected iocid reg (some (ok true, w)) = some (ok tt, (reg, w))
  after_push true iocid reg (some (ok false, w)) = given_up w (evict_ioc iocid reg)
  after_push false iocid reg (some (ok false, w)) = some (err cancelled_error, (reg, w))

module _ {ℓ} {W : Type ℓ} (client : Client W) (c : CfConfig) (list : Whitelist) (managed : List Str)
    (running cancelled : W → Bool) where
  -- _push_to_cf, for the tables as they are
  unfoldable pub push :
      ℕ → Registry → IocInfo → Dict Str RecordInfo → List Name → W → Option (Result Bool × W)
  unfolding push_to_cf update_channelfinder
  push fuel reg ioc records deleted w =
      push_to_cf c running (update_channelfinder client c cancelled managed reg ioc records deleted)
        fuel w

  -- once update_ioc_infos has returned
  unfoldable pub pushed :
      ℕ
      → Transaction
      → IocInfo
      → Dict Str RecordInfo
      → (Result (Unit {0}) × Registry) × List Name
      → W
      → Option (Result (Unit {0}) × (Registry × W))
  unfolding push after_push
  pushed fuel t ioc records ((err e, reg), deleted) w = some (err e, (reg, w))
  pushed fuel t ioc records ((ok _, reg), deleted) w =
      after_push t.connected (id ioc) reg (push fuel reg ioc records deleted w)

  unfoldable pub commit :
      ℕ → Str → Transaction → Registry → W → Option (Result (Unit {0}) × (Registry × W))
  unfolding pushed updated check_ioc_name
  commit fuel time t reg w =
      let ioc = ioc_info_of c time t in
      if not (running w)
      then some (err cancelled_error, (reg, w))
      else elim (check_ioc_name (ioc_name_of t)) [
        | err e ↦ some (err e, (reg, w))
        | ok _ ↦
            if not t.connected && not (Dict.contains reg.iocs (id ioc))
            then some (ok tt, (reg, w))
            else pushed fuel t ioc (records_of c list ioc t) (updated c list time t reg) w
      ]
