-- ===== src/Tests/Cf.antt =====
-- The ChannelFinder processor.
use recsync.Prelude.{
  ℕ, ◌≡◌, refl, [], ◌∷◌, ◌++◌, true, false, List, some, Str, Result, ok, err, key_error,
  request_error, codes, All, arith, str_beq, str_eq, nat_eq, ltb, ◌+◌, if◌then◌else◌,
}
use recsync.Integer.{pos}
use recsync.Dict
use recsync.Dict.{Dict}
use recsync.Sets.{set_contains}
use recsync.Recast.Transaction.{Transaction, new_transaction}
use recsync.Cf.PropertyName
use recsync.Cf.Config.{CfConfig}
use recsync.Cf.Property.{CfProperty, property, names, merge_property_lists}
use recsync.Cf.Property.Merge.{unmanaged, merge_property_lists_lem}
use recsync.Cf.Channel.{CfChannel}
use recsync.Cf.Model.{IocInfo, id, RecordInfo, name_beq}
use recsync.Cf.Registry.{
  Registry, new_registry, update_ioc_infos, evict_ioc, register, count_up, add_channel,
}
use recsync.Cf.Registry.Agreement.{IsAgreed}
use recsync.Cf.Registry.Updates.{update_ioc_infos-IsAgreed}
use recsync.Cf.Registry.Evict.{IsEvicted, evict_ioc-IsEvicted, commit_after_evict_raises}
use recsync.Cf.Registry.Reached.{
  IsAccounted, started, updated, evicted, new_registry-IsAccounted, registry-IsAccounted,
}
use recsync.Cf.Records.{Whitelist}
use recsync.Cf.Adapter.{chunks}
use recsync.Cf.Adapter.Chunks.{IsShort, joined, chunks-IsShort, chunks-joined}
use recsync.Cf.Push.{push_to_cf}
use recsync.Cf.Push.Attempts.{Pushed, push_to_cf-Pushed}
use recsync.Tests.Data.{peer}

abbrev pub config : CfConfig
config = record {
  alias_enabled = true;
  record_type_enabled = true;
  environment_variables = codes "ENGINEER:Engineer, PWD:Directory";
  info_tags = codes "archive, archiver";
  ioc_connection_info = true;
  record_description_enabled = true;
  clean_on_start = true;
  clean_on_stop = true;
  username = codes "cfstore";
  env_owner_variable = codes "ENGINEER";
  recceiver_id = codes "rec1";
  cf_query_limit = 10000;
  push_max_retries = 2;
  push_always_retry = false;
}

abbrev pub ioc : IocInfo
ioc = record {
  host = codes "10.0.0.1";
  hostname = codes "host1";
  ioc_name = codes "ioc1";
  ioc_ip = codes "10.0.0.1";
  owner = codes "cfstore";
  time = codes "now";
  port = 41000;
  channelcount = pos 0;
}

abbrev pub first_commit : Transaction
first_commit = record {
  source_address = peer;
  connected = true;
  initial = true;
  srcid = 1;
  records_to_add = (7, (codes "pv:1", codes "ai")) ∷ [];
  client_infos = (codes "HOSTNAME", codes "host1") ∷ [];
  record_infos_to_add = (7, (codes "unit", codes "mm") ∷ []) ∷ [];
  aliases = (7, codes "pv:one" ∷ []) ∷ [];
  records_to_delete = [];
}

abbrev pub whitelist : Whitelist
whitelist = record {
  env_vars = (codes "HOSTNAME", codes "node") ∷ [];
  record_property_names_list = codes "unit" ∷ [];
}

abbrev pub info_one : RecordInfo
info_one = record {
  pv_name = codes "pv:1";
  record_type = some (codes "ai");
  info_properties = [];
  aliases = codes "pv:one" ∷ [];
}

abbrev pub records : Dict Str RecordInfo
records = (codes "pv:1", info_one) ∷ []

pub new_registry-IsAgreed : IsAgreed new_registry
new_registry-IsAgreed = new_registry-IsAccounted.agreed

abbrev registered : Registry
registered = (update_ioc_infos config first_commit ioc [] records new_registry).0.1

pub registers : (update_ioc_infos config first_commit ioc [] records new_registry).0.0 ≡ ok tt
unfolding update_ioc_infos register set_contains Dict.get count_up Dict.put str_beq id add_channel
    name_beq
registers = refl

update_ioc_infos-IsAgreed_example : IsAgreed registered
update_ioc_infos-IsAgreed_example =
    update_ioc_infos-IsAgreed config first_commit ioc [] records new_registry new_registry-IsAgreed
      registers

registry-IsAccounted_example : IsAccounted (evict_ioc (id ioc) registered).1
unfolding Dict.get
registry-IsAccounted_example = registry-IsAccounted config (evict_ioc (id ioc) registered).1 (
    evicted (id ioc) registered
      (updated first_commit ioc [] records new_registry started (λ _. refl) refl registers))

evict_ioc-IsEvicted_example : IsEvicted (id ioc) (evict_ioc (id ioc) registered)
evict_ioc-IsEvicted_example =
    evict_ioc-IsEvicted (id ioc) registered update_ioc_infos-IsAgreed_example

commit_after_evict_raises_example :
    (update_ioc_infos config
      (new_transaction peer 1)
      ioc
      []
      records
      (evict_ioc (id ioc) registered).1).0.0
    ≡ err key_error
unfolding new_transaction
commit_after_evict_raises_example =
    commit_after_evict_raises config (new_transaction peer 1) ioc [] (codes "pv:1") info_one []
      registered update_ioc_infos-IsAgreed_example refl

abbrev two_names : List Str
two_names = codes "pv:1" ∷ codes "pv:2" ∷ []

chunks-IsShort_example : All IsShort (chunks two_names)
chunks-IsShort_example = chunks-IsShort two_names (omega arith, (omega arith, tt))

chunks-joined_example : joined (chunks two_names) ≡ joined two_names
chunks-joined_example = chunks-joined two_names (ground arith)

-- A service that refuses the first attempt; the world is the number of attempts.
abbrev second_works : ℕ → Result (Unit {0}) × ℕ
second_works n = (if ltb n 1 then err request_error else ok tt, n + 1)

push_to_cf-Pushed_example :
    Pushed config (λ n. true) second_works 0 0 (push_to_cf config (λ n. true) second_works 3 0)
push_to_cf-Pushed_example = push_to_cf-Pushed config (λ n. true) second_works 0 refl

abbrev new_properties : List CfProperty
new_properties = property PropertyName.pv_status (codes "o") PropertyName.active ∷ []

abbrev old_properties : List CfProperty
old_properties =
    property PropertyName.pv_status (codes "o") PropertyName.inactive
    ∷ property (codes "unit") (codes "o") (codes "mm")
    ∷ property (codes "room") (codes "o") (codes "12")
    ∷ []

merge_property_lists_lem_example :
    merge_property_lists new_properties old_properties (codes "unit" ∷ [])
    ≡ new_properties ++ unmanaged (names new_properties) (codes "unit" ∷ []) old_properties
merge_property_lists_lem_example =
    merge_property_lists_lem new_properties old_properties (codes "unit" ∷ [])

abbrev channel : CfChannel
channel = record { name = codes "pv:1"; owner = codes "o"; properties = old_properties }
