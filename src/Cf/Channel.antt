-- ===== src/Cf/Channel.antt =====
-- `CFChannel` of cf/model.py and its dictionary form.
use recsync.Dict
use recsync.Prelude.{str_beq, [], ◌∷◌, ◌≡◌, refl, List, map, Option, some, Str, ap}
use recsync.Dict.{Dict, list_or_empty}
use recsync.Cf.Property
use recsync.Cf.Property.{CfProperty, value_or_empty}

pub record CfChannel : Type 0 where
  pub name : Str
  pub owner : Str
  pub properties : List CfProperty

-- The dictionary of a channel, whose entries may be missing.
pub record ChannelDict : Type 0 where
  pub name : Option Str
  pub owner : Option Str
  pub properties : Option (List (Dict Str Str))

unfoldable pub as_dict : CfChannel → ChannelDict
as_dict c = record {
  name = some c.name;
  owner = some c.owner;
  properties = some (map Property.as_dict c.properties);
}

unfoldable pub from_dict : ChannelDict → CfChannel
from_dict d = record {
  name = value_or_empty d.name;
  owner = value_or_empty d.owner;
  properties = map Property.from_dict (list_or_empty d.properties);
}

-- A property as ChannelFinder gives it back: a missing value comes back empty.
abbrev pub with_value : CfProperty → CfProperty
with_value p = record p { value = some (value_or_empty p.value) }

properties_back :
    (ps : List CfProperty) → map Property.from_dict (map Property.as_dict ps) ≡ map with_value ps
unfolding Property.from_dict Property.as_dict Dict.get str_beq
properties_back [] = refl
properties_back (p ∷ ps) = ap (λ qs. with_value p ∷ qs) (properties_back ps)

-- A channel comes back from its dictionary form as it was, but for missing values of properties,
-- which come back empty.
pub from_dict-as_dict :
    (c : CfChannel) → from_dict (as_dict c) ≡ record c { properties = map with_value c.properties }
unfolding from_dict as_dict
from_dict-as_dict c = rw (properties_back c.properties)
