-- ===== src/Tests/Update.antt =====
-- The commits of the ChannelFinder processor.
use recsync.Prelude.{
  ℕ, ◌+◌, Str, All, arith, ◌≡◌, refl, [], ◌∷◌, true, false, map, str_beq, ok, err, key_error,
  value_error, codes, str_eq,
}
use recsync.Dict
use recsync.Dict.{Dict}
use recsync.Sets.{set_contains, set_discard}
use recsync.Cf.PropertyName
use recsync.Cf.Property.{property, merge_property_lists}
use recsync.Cf.Channel.{CfChannel}
use recsync.Cf.Model.{id, decimal, name_beq}
use recsync.Cf.Registry.{new_registry, register, count_up, add_channel}
use recsync.Cf.Adapter.{Client}
use recsync.Cf.Classify.{own, status_and_time, Batch, aliases_of, handle_channels}
use recsync.Cf.Classify.Covered.{kept_alias_raises}
use recsync.Cf.Update.{process_new_channels, resolve, by_channel_name}
use recsync.Cf.Classify.Active.{active_if_named, lacks}
use recsync.Cf.Classify.Active.Handled.{channel_names}
use recsync.Cf.Update.Active.{commit_active}
use recsync.Cf.Config.{CfConfig}
use recsync.Cf.Commit.{ioc_name_of, check_ioc_name, ioc_info_of, records_of, updated, commit}
use recsync.Cf.Commit.Settled.{Settled, commit-Settled}
use recsync.Tests.Cf.{config, ioc, first_commit, whitelist, records, new_registry-IsAgreed}

abbrev stored : CfChannel
stored = record {
  name = codes "pv:1";
  owner = codes "o";
  properties = property PropertyName.pv_status (codes "o") PropertyName.inactive ∷ [];
}

abbrev empty_batch : Batch
empty_batch = record {
  channels = [];
  new_channels = map (λ entry. entry.0) records;
  existing_channels = [];
}

nothing_old : handle_channels config [] new_registry ioc records [] [] empty_batch ≡ ok empty_batch
unfolding handle_channels
nothing_old = refl

one_record : Dict.contains records (codes "pv:1") ≡ true
unfolding Dict.contains Dict.get str_beq
one_record = refl

-- ChannelFinder has pv:1 as inactive; aliases are off.
abbrev plain : CfConfig
plain = record config { alias_enabled = false }

abbrev revived : CfChannel
revived = record stored {
  properties =
      property PropertyName.pv_status ioc.owner PropertyName.active
      ∷ property PropertyName.time ioc.owner ioc.time
      ∷ [];
}

abbrev revived_batch : Batch
revived_batch = record { channels = own revived ∷ []; new_channels = []; existing_channels = [] }

kept_one :
    handle_channels plain [] new_registry ioc records [] (stored ∷ []) empty_batch
    ≡ ok revived_batch
unfolding handle_channels status_and_time merge_property_lists set_contains str_beq aliases_of
    set_discard Dict.get
kept_one = refl

no_aliases : (m : Str) → lacks (aliases_of plain records m) (codes "pv:1") ≡ true
unfolding aliases_of set_contains
no_aliases m = ground arith

commit_active_example :
    (set_contains (channel_names (revived ∷ [])) (codes "pv:1") ≡ true)
    × All (λ ch. active_if_named (codes "pv:1") ch ≡ true) (revived ∷ [])
unfolding set_contains process_new_channels resolve by_channel_name
commit_active_example =
    commit_active plain [] new_registry ioc records [] (stored ∷ []) [] (revived ∷ []) revived_batch
      (codes "pv:1") kept_one refl one_record (refl, tt) (λ m. refl) no_aliases

-- The commit holds pv:1, with the alias pv:one, again.
kept_alias_raises_example :
    handle_channels config [] new_registry ioc records [] (stored ∷ []) empty_batch ≡ err key_error
unfolding set_contains aliases_of Dict.get str_beq
kept_alias_raises_example =
    kept_alias_raises config [] new_registry ioc records [] stored [] empty_batch (codes "pv:one")
      [] refl refl refl refl

-- A service that knows no channels and takes all; the world counts the writes.
abbrev service : Client ℕ
service = record {
  find_by_args = λ args n. (ok [], n);
  set_channel_dicts = λ channels n. (ok tt, n + 1);
  update = λ prop names n. (ok tt, n + 1);
  get_all_properties = λ n. (ok [], n);
  set_property_dict = λ prop n. (ok tt, n + 1);
}

updates : (updated config whitelist (codes "now") first_commit new_registry).0.0 ≡ ok tt
unfolding updated Dict.get Dict.put Dict.contains register set_contains count_up str_beq id
    add_channel name_beq
updates = refl

named : check_ioc_name (ioc_name_of first_commit) ≡ ok tt
unfolding check_ioc_name ioc_name_of decimal Dict.get str_beq
named = refl

-- A superscript is a digit that int refuses.
superscript : check_ioc_name (178 ∷ []) ≡ err value_error
unfolding check_ioc_name
superscript = refl

commit-Settled_example :
    let ioc_info = ioc_info_of config (codes "now") first_commit in
    let ((_, reg), deleted) = updated config whitelist (codes "now") first_commit new_registry in
    Settled service config []
      (λ n. true)
      (λ n. false)
      reg
      ioc_info
      (records_of config whitelist ioc_info first_commit)
      deleted
      0
      (commit service config whitelist []
        (λ n. true)
        (λ n. false)
        3
        (codes "now")
        first_commit
        new_registry
        0)
commit-Settled_example =
    commit-Settled service config whitelist [] (λ n. true) (λ n. false) (codes "now") first_commit
      new_registry 0 refl refl named refl new_registry-IsAgreed updates
