-- ===== src/Cf/Registry/Updates.antt =====
-- The commit's changes of the registry keep its tables agreed.
use recsync.Prelude.{◌≡◌, Bool, true, false, List, Str, ok, nat_eq, str_eq}
use recsync.Dict.{Dict}
use recsync.Recast.Transaction.{Transaction}
use recsync.Cf.Config.{CfConfig}
use recsync.Cf.Model.{IocInfo, RecordInfo, Name, name_eq}
use recsync.Cf.Registry.{Registry, ids_of, channels_of, update_ioc_infos, enter_ioc}
use recsync.Cf.Registry.Agreement.{
  IsAgreed, register-IsAgreed, touch-IsAgreed, remove_channel-IsAgreed,
}
use recsync.Cf.Registry.Steps.{update_ioc_infos-keeps}

pub enter_ioc-IsAgreed :
    (initial : Bool) (ioc : IocInfo) (r : Registry)
    → IsAgreed r
    → IsAgreed (enter_ioc initial ioc r)
unfolding enter_ioc ids_of channels_of
enter_ioc-IsAgreed true ioc r a = record { agree = a.agree; once = a.once }
enter_ioc-IsAgreed false ioc r a = a

-- A commit that starts from agreed tables and raises nothing leaves channel_ioc_ids and
-- _ioc_channels agreed: an IOC stands among the IOCs of a channel as often as the channel among
-- those of the IOC, at most once.
pub update_ioc_infos-IsAgreed :
    (c : CfConfig) (t : Transaction) (ioc : IocInfo) (deleted : List Name)
    (records : Dict Str RecordInfo) (r : Registry)
    → IsAgreed r
    → (update_ioc_infos c t ioc deleted records r).0.0 ≡ ok tt
    → IsAgreed (update_ioc_infos c t ioc deleted records r).0.1
update_ioc_infos-IsAgreed c t ioc deleted records r a =
    update_ioc_infos-keeps IsAgreed
      (record {
        registers = register-IsAgreed;
        touches = touch-IsAgreed;
        removes = remove_channel-IsAgreed;
      })
      c t ioc deleted records r (enter_ioc-IsAgreed t.initial ioc r a)
