-- ===== src/Tests/Setup.antt =====
-- The set-up of properties, and the start, the stop and the sweep of the ChannelFinder processor.
use recsync.Prelude.{
  ℕ, zero, suc, ◌+◌, ◌-◌, ◌≡◌, refl, [], ◌∷◌, true, false, List, none, some, Str, codes, ok, err,
  value_error, os_error, request_error, arith, All, inr, str_beq, str_eq, if◌then◌else◌,
}
use recsync.Dict
use recsync.Sets.{set_contains}
use recsync.Text.{int}
use recsync.Cf.PropertyName
use recsync.Cf.Property.{value_or_empty}
use recsync.Cf.Channel.{CfChannel}
use recsync.Cf.Adapter.{Call, Client, set_property}
use recsync.Cf.Commit.{records_of}
use recsync.Cf.Update.{new_properties}
use recsync.Cf.Setup.{env_vars_of, setup_from, setup_cf_properties}
use recsync.Cf.Setup.Registered.{Registers, setup_cf_properties-Registers}
use recsync.Cf.Setup.Written.{new_properties-IsManaged}
use recsync.Cf.Service.{
  new_service, build_client, start_service, get_active_channels, clean_channels, clean_service,
  sweep,
}
use recsync.Cf.Service.Swept.{
  Answers, Updates, none_yet, one_more, Stops, clean_service-Stops, clean_service-succeeds,
}
use recsync.Cf.Service.Started.{Begun, succeeds, is_there, start_service-Begun, restart_skips_setup}
use recsync.Tests.Cf.{config, ioc, first_commit}

-- A service that keeps the names of its properties, the world.
abbrev register : Client (List Str)
register = record {
  find_by_args = λ args w. (ok [], w);
  set_channel_dicts = λ channels w. (ok tt, w);
  update = λ prop names w. (ok tt, w);
  get_all_properties = λ w. (ok [], w);
  set_property_dict = λ prop w. (ok tt, value_or_empty (Dict.get prop (codes "name")) ∷ w);
}

abbrev env : Dict.Dict Str Str
env = (codes "ENGINEER", codes "Engineer") ∷ (codes "PWD", codes "Directory") ∷ []

registers : Registers register set_contains config.username
unfolding set_property Dict.get str_beq set_contains
registers name w = (name ∷ w, refl, λ n. ground arith)

setup_cf_properties-Registers_example :
    (v : List Str) × (setup_cf_properties register config
        (PropertyName.time ∷ [])
        (PropertyName.time ∷ [])
      ≡ (ok (setup_from config env), v))
    × ((n : Str)
        → (if set_contains (setup_from config env).managed_properties n
            then set_contains v n
            else true)
          ≡ true)
unfolding env_vars_of str_beq Dict.put
setup_cf_properties-Registers_example =
    setup_cf_properties-Registers register set_contains config (PropertyName.time ∷ []) env
      (PropertyName.time ∷ []) registers (λ n h. h) refl

new_properties-IsManaged_example :
    let s = setup_from config env in
    All
      (λ p. set_contains s.managed_properties p.name ≡ true)
      (new_properties config s.managed_properties ioc
        (records_of config s.whitelist ioc first_commit)
        (codes "pv"))
    × ((if config.alias_enabled then set_contains s.managed_properties PropertyName.alias else true)
        ≡ true)
new_properties-IsManaged_example = new_properties-IsManaged config env ioc first_commit (codes "pv")

-- A service that refuses every query; the world is the number of active channels.
abbrev refusing : Client ℕ
refusing = record {
  find_by_args = λ args n. (err request_error, n);
  set_channel_dicts = λ channels n. (err request_error, n);
  update = λ prop names n. (err request_error, n);
  get_all_properties = λ n. (err os_error, n);
  set_property_dict = λ prop n. (err request_error, n);
}

refused : (w : ℕ) → Answers refusing config (λ n. n) w
unfolding get_active_channels
refused w = inr (w, refl, omega arith)

not_updated :
    (w : ℕ) (chs : List CfChannel)
    → get_active_channels refusing config w ≡ (ok chs, w)
    → Updates refusing config (λ n. n) w chs
unfolding clean_channels
not_updated w chs e = inr (w, refl, omega arith)

clean_service-Stops_example :
    Stops refusing config
      (λ n. n)
      (λ n. false)
      (λ k n. n)
      4
      0
      4
      3
      (clean_service refusing config (λ n. false) (λ k n. n) 4 4 3)
clean_service-Stops_example =
    clean_service-Stops refusing config (λ n. n) (λ n. false) (λ k n. n) 4 refused not_updated
      (λ w. refl) (λ k w. omega arith) 3 (omega arith)

-- Each world above 0 refuses, and the pauses count down.
abbrev recovering : Client ℕ
recovering = record refusing {
  find_by_args = λ args n. elim n [ zero ↦ (ok [], 0) | suc m ↦ (err request_error, suc m) ];
}

clean_service-succeeds_example :
    clean_service recovering config (λ n. true) (λ k n. n - 1) (2 + 1) 1 2 ≡ some (ok tt, 0)
unfolding sweep
clean_service-succeeds_example =
    clean_service-succeeds recovering config (λ k n. n - 1) 1 (λ n. true) 2 2 0 0 (λ x. refl)
      (one_more refl (one_more refl none_yet)) refl

-- the constructor of the client, which succeeds
abbrev construct : Call (Unit {0}) ℕ
construct n = (ok tt, n)

start_service-Begun_example :
    Begun
      (succeeds (build_client refusing construct (some (codes "100")) config 0).0)
      (start_service refusing construct (some (codes "100")) config true new_service 0)
unfolding new_service
start_service-Begun_example =
    start_service-Begun refusing construct (some (codes "100")) config true new_service 0 refl refl
      refl

-- a limit that is no number
not_built :
    (start_service refusing construct (some (codes "many")) config true new_service 0).0
    ≡ err value_error
unfolding start_service new_service int
not_built = refl

restart_skips_setup_example :
    let again =
      start_service refusing construct none config true
        (start_service refusing construct none config true new_service 0).1.0
        0 in
    (again.0 ≡ ok tt) × (again.1.0.running ≡ true) × (is_there again.1.0.setup ≡ false)
unfolding new_service start_service
restart_skips_setup_example =
    restart_skips_setup refusing construct none config true new_service 0 0 os_error refl refl refl
      refl refl
