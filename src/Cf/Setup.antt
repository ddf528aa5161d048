-- ===== src/Cf/Setup.antt =====
-- _setup_cf_properties of cf/processor.py: the properties that the processor manages, and their
-- registration with ChannelFinder.
pub mod Managed
pub mod Written
pub mod Registered
use recsync.Prelude.{
  ◌and_then◌, ℕ, [], ◌∷◌, ◌++◌, Bool, true, false, not, ◌||◌, List, map, Option, none, some, Str,
  codes, Result, ok, err, value_error, str_eq, nat_beq, ◌>>=◌, if◌then◌else◌,
}
use recsync.Dict
use recsync.Dict.{Dict}
use recsync.Sets.{set_contains, set_add}
use recsync.Text.{is_space, strip, split, words, cut, comma}
use recsync.Cf.PropertyName
use recsync.Cf.Config.{CfConfig}
use recsync.Cf.Records.{Whitelist}
use recsync.Cf.Adapter.{Call, Client, set_property}

pub record Setup : Type 0 where
  pub whitelist : Whitelist
  pub managed_properties : List Str

-- s.update(names)
unfoldable pub set_update : List Str → List Str → List Str
unfolding set_add
set_update s [] = s
set_update s (name ∷ names) = set_update (set_add s name) names

abbrev add_if : Bool → Str → List Str → List Str
add_if enabled name s = if enabled then set_add s name else s

-- the names that are required before the environment variables
unfoldable pub required_names : CfConfig → List Str
unfolding set_add
required_names c = add_if c.record_type_enabled PropertyName.record_type (
    add_if c.alias_enabled PropertyName.alias (
      PropertyName.host_name ∷ PropertyName.ioc_name ∷ PropertyName.ioc_id ∷ PropertyName.ioc_ip
      ∷ PropertyName.pv_status ∷ PropertyName.time ∷ PropertyName.recceiver_id ∷ []))

abbrev stripped : Option (Str × Str) → Result (Str × Str)
stripped none = err value_error
stripped (some (k, v)) = ok (strip is_space k, strip is_space v)

-- k.strip(): v.strip() of `VARIABLE:PropertyName`
unfoldable pub env_var_of : Str → Result (Str × Str)
unfolding cut strip is_space
env_var_of item = stripped (cut b':' item)

-- the comprehension over the items
unfoldable pub env_vars_from : List Str → Dict Str Str → Result (Dict Str Str)
unfolding env_var_of
env_vars_from [] found = ok found
env_vars_from (item ∷ items) found = do
  pair ← env_var_of item
  env_vars_from items (Dict.put found pair.0 pair.1)

-- the variables of the setting, if it is not empty
unfoldable pub env_vars_of : Str → Result (Dict Str Str)
unfolding env_vars_from split
env_vars_of [] = ok []
env_vars_of (c ∷ setting) = env_vars_from (split comma (c ∷ setting)) []

abbrev pub values : Dict Str Str → List Str
values d = map (λ entry. entry.1) d

unfoldable pub with_ports : Dict Str Str → Dict Str Str
with_ports d =
    Dict.put (Dict.put d (codes "RSRV_SERVER_PORT") PropertyName.ca_port) (codes "PVAS_SERVER_PORT")
      PropertyName.pva_port

-- {s.strip(", ") for s in info_tags.split()}, and the description
unfoldable pub tags_of : CfConfig → List Str
unfolding words strip set_update set_add
tags_of c =
    add_if c.record_description_enabled PropertyName.record_desc
      (set_update [] (map (strip (λ x. nat_beq x b',' || nat_beq x b' ')) (words c.info_tags)))

-- the names and variables, from the variables of the setting
unfoldable pub setup_from : CfConfig → Dict Str Str → Setup
unfolding required_names set_update set_add with_ports tags_of
setup_from c env =
    let required = set_update (required_names c) (values env) in
    let tags = tags_of c in
    if c.ioc_connection_info
    then record {
      whitelist = record { env_vars = with_ports env; record_property_names_list = tags };
      managed_properties =
          set_update (set_add (set_add required PropertyName.ca_port) PropertyName.pva_port) tags;
    }
    else record {
      whitelist = record { env_vars = env; record_property_names_list = tags };
      managed_properties = set_update required tags;
    }

-- a set difference
unfoldable pub set_minus : List Str → List Str → List Str
unfolding set_contains
set_minus [] known = []
set_minus (name ∷ names) known =
    let rest = set_minus names known in if set_contains known name then rest else name ∷ rest

module _ {ℓ} {W : Type ℓ} (client : Client W) where
  -- the loop that registers
  unfoldable pub set_properties : Str → List Str → Call (Unit {0}) W
  unfolding set_property
  set_properties owner [] w = (ok tt, w)
  set_properties owner (name ∷ names) w =
      set_property client name owner w and_then λ _. set_properties owner names

  unfoldable pub register_missing : CfConfig → List Str → Setup → Call Setup W
  unfolding set_properties set_minus
  register_missing c cf_properties s w =
      set_properties c.username (set_minus s.managed_properties cf_properties) w and_then λ _ w'.
      (ok s, w')

  unfoldable pub setup_cf_properties : CfConfig → List Str → Call Setup W
  unfolding env_vars_of setup_from register_missing
  setup_cf_properties c cf_properties w = elim (env_vars_of c.environment_variables) [
    | err e ↦ (err e, w)
    | ok env ↦ register_missing c cf_properties (setup_from c env) w
  ]
