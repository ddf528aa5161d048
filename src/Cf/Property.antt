-- ===== src/Cf/Property.antt =====
-- `CFProperty` of cf/model.py, its dictionary form, and the lists of properties that cf/processor.py
-- builds and merges.
pub mod Merge
use recsync.Prelude.{
  [], ◌∷◌, ◌++◌, Bool, not, ◌&&◌, List, map, Option, none, some, Str, codes, str_eq, if◌then◌else◌,
}
use recsync.Dict
use recsync.Dict.{Dict}
use recsync.Sets.{set_contains}
use recsync.Cf.PropertyName

pub record CfProperty : Type 0 where
  pub name : Str
  pub owner : Str
  pub value : Option Str

-- `value or ""`
abbrev pub value_or_empty : Option Str → Str
value_or_empty none = []
value_or_empty (some v) = v

unfoldable pub as_dict : CfProperty → Dict Str Str
as_dict p =
    (codes "name", p.name) ∷ (codes "owner", p.owner) ∷ (codes "value", value_or_empty p.value) ∷ []

unfoldable pub from_dict : Dict Str Str → CfProperty
from_dict d = record {
  name = value_or_empty (Dict.get d (codes "name"));
  owner = value_or_empty (Dict.get d (codes "owner"));
  value = Dict.get d (codes "value");
}

-- CFProperty(name, owner, value)
abbrev pub property : Str → Str → Str → CfProperty
property name owner value = record { name = name; owner = owner; value = some value }

abbrev pub names : List CfProperty → List Str
names = map (λ p. p.name)

unfoldable pub create_ioc_properties : Str → Str → Str → Str → Str → Str → Str → List CfProperty
create_ioc_properties owner ioc_time recceiverid host_name ioc_name ioc_ip iocid =
    property PropertyName.host_name owner host_name
    ∷ property PropertyName.ioc_name owner ioc_name
    ∷ property PropertyName.ioc_id owner iocid
    ∷ property PropertyName.ioc_ip owner ioc_ip
    ∷ property PropertyName.pv_status owner PropertyName.active
    ∷ property PropertyName.time owner ioc_time
    ∷ property PropertyName.recceiver_id owner recceiverid
    ∷ []

-- the loop of _merge_property_lists over the old properties
unfoldable pub keep_unmanaged :
    List Str → List Str → List CfProperty → List CfProperty → List CfProperty
keep_unmanaged new_property_names managed new_properties [] = new_properties
keep_unmanaged new_property_names managed new_properties (p ∷ ps) =
    keep_unmanaged new_property_names managed
      (if not (set_contains new_property_names p.name) && not (set_contains managed p.name)
        then new_properties ++ p ∷ []
        else new_properties)
      ps

-- `managed` is the set of managed properties, or [] where it is None.
unfoldable pub merge_property_lists : List CfProperty → List CfProperty → List Str → List CfProperty
unfolding keep_unmanaged
merge_property_lists new_properties old managed =
    keep_unmanaged (names new_properties) managed new_properties old
