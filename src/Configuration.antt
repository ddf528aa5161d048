-- ===== src/Configuration.antt =====
-- `ConfigAdapter` of server/recceiver/processors.py, over Python's ConfigParser: a parser is the
-- options that its files have set, with their names in lower case.
pub mod Environment
use recsync.Prelude.{
  zero, suc, ℕ, [], ◌∷◌, ◌++◌, Bool, true, false, ◌||◌, Option, none, some, Str, codes, Error,
  Result, ok, err, value_error, key_error, no_option_error, no_section_error, interpolation_error,
  nat_eq, str_eq, ◌==◌, nat_beq, if◌then◌else◌, length,
}
use recsync.Integer.{ℤ}
use recsync.Dict
use recsync.Dict.{Dict}
use recsync.Sets.{set_contains}
use recsync.Text.{lower, upper, without_prefix, int}

pub record Parser : Type 0 where
  pub defaults : Dict Str Str
  pub sections : Dict Str (Dict Str Str)

-- parser.has_section
unfoldable pub has_section : Parser → Str → Bool
has_section p section = Dict.contains p.sections section

-- parser.add_section, for a section that is not there
unfoldable pub add_section : Parser → Str → Result Parser
add_section p section =
    if section == codes "DEFAULT"
    then err value_error
    else ok (record p { sections = Dict.put p.sections section [] })

-- Where the interpolation of a value stands: in plain text, after a "%", or in the name of
-- "%(name)s" or behind it.
pub data Place : Type 0 where
  plain : Place
  percent : Place
  name_of : Str → Place
  closed : Str → Place

abbrev and_after : ℕ → Result Str → Result Str
and_after c (ok s) = ok (c ∷ s)
and_after c (err e) = err e

-- One pass over a value, that inserts `value` of a name.
scan : (Str → Result Str) → Place → Str → Result Str
scan value plain [] = ok []
scan value plain (c ∷ s) =
    let special = scan value percent s in
    let usual = and_after c (scan value plain s) in if nat_beq c b'%' then special else usual
scan value percent [] = err interpolation_error
scan value percent (c ∷ s) =
    let escaped = and_after b'%' (scan value plain s) in
    let named = scan value (name_of []) s in
    if nat_beq c b'%' then escaped else if nat_beq c b'(' then named else err interpolation_error
scan value (name_of n) [] = err interpolation_error
scan value (name_of n) (c ∷ s) =
    let ended = scan value (closed n) s in
    let longer = scan value (name_of (n ++ c ∷ [])) s in
    if nat_beq c b')'
    then (if nat_beq (length n) 0 then err interpolation_error else ended)
    else longer
scan value (closed n) [] = err interpolation_error
scan value (closed n) (c ∷ s) =
    let rest = scan value plain s in
    if nat_beq c b's'
    then elim (value n) [ err e ↦ err e | ok v ↦ elim rest [ err e ↦ err e | ok t ↦ ok (v ++ t) ] ]
    else err interpolation_error

-- BasicInterpolation, with at most `depth` passes inside one another: a value without a percent sign
-- needs none.
unfoldable pub interpolate : ℕ → (Str → Option Str) → Str → Result Str
unfolding scan set_contains
interpolate zero options s = if set_contains s b'%' then err interpolation_error else ok s
interpolate (suc depth) options s =
    scan
      (λ n. elim (options (lower n)) [
        | none ↦ err interpolation_error
        | some v ↦ interpolate depth options v
      ])
      plain s

unfoldable pub prefix_of : Str → Str
unfolding upper
prefix_of section = codes "RECCEIVER_" ++ (upper section ++ codes "_")

-- the comprehension of _env_vars
unfoldable pub prefixed : Str → Dict Str Str → Dict Str Str → Dict Str Str
unfolding without_prefix lower
prefixed prefix [] found = found
prefixed prefix ((k, v) ∷ environ) found = prefixed prefix environ (elim (without_prefix prefix k) [
  | none ↦ found
  | some option ↦ Dict.put found (lower option) v
])

-- _env_vars, of the environment
unfoldable pub env_vars : Dict Str Str → Str → Dict Str Str
unfolding prefixed prefix_of
env_vars environ section = prefixed (prefix_of section) environ []

pub record ConfigAdapter : Type 0 where
  pub parser : Parser
  pub section : Str
  pub vars : Dict Str Str

-- ConfigAdapter.__init__
unfoldable pub config_adapter : Dict Str Str → Parser → Str → ConfigAdapter
unfolding env_vars
config_adapter environ parser section = record {
  parser = parser;
  section = section;
  vars = env_vars environ section;
}

abbrev pub or_else {ℓ} : {A : Type ℓ} → Option A → Option A → Option A
or_else none other = other
or_else (some a) other = some a

abbrev pub options_of : Option (Dict Str Str) → Dict Str Str
options_of none = []
options_of (some options) = options

-- An option by its name in lower case: from the environment, the section, or the defaults.
unfoldable pub raw : ConfigAdapter → Str → Option Str
raw a option = or_else (Dict.get a.vars option) (
    or_else (Dict.get (options_of (Dict.get a.parser.sections a.section)) option)
      (Dict.get a.parser.defaults option))

-- parser.get(section, key, vars=...)
unfoldable pub parser_get : ConfigAdapter → Str → Result Str
unfolding raw interpolate lower has_section
parser_get a key =
    if has_section a.parser a.section || a.section == codes "DEFAULT"
    then elim (raw a (lower key)) [ none ↦ err no_option_error | some v ↦ interpolate 10 (raw a) v ]
    else err no_section_error

-- except NoOptionError: return default
unfoldable pub get_or_default {ℓ} : {A : Type ℓ} → A → Result A → Result A
get_or_default default (ok v) = ok v
get_or_default default (err no_option_error) = ok default
get_or_default default (err e) = err e

-- except (NoOptionError, ValueError): return default
unfoldable pub value_or_default {ℓ} : {A : Type ℓ} → A → Result A → Result A
value_or_default default (ok v) = ok v
value_or_default default (err no_option_error) = ok default
value_or_default default (err value_error) = ok default
value_or_default default (err e) = err e

abbrev some_text : Result Str → Result (Option Str)
some_text (ok v) = ok (some v)
some_text (err e) = err e

-- get(key, default), where the default is a text
unfoldable pub get_text : ConfigAdapter → Str → Str → Result Str
unfolding parser_get get_or_default
get_text a key default = get_or_default default (parser_get a key)

-- get(key), where the default is None
unfoldable pub get : ConfigAdapter → Str → Result (Option Str)
unfolding parser_get get_or_default
get a key = get_or_default none (some_text (parser_get a key))

-- parser._convert_to_boolean
unfoldable pub boolean_of : Str → Result Bool
unfolding lower
boolean_of s =
    let v = lower s in
    if v == codes "1" || (v == codes "yes" || (v == codes "true" || v == codes "on"))
    then ok true
    else if v == codes "0" || (v == codes "no" || (v == codes "false" || v == codes "off"))
    then ok false
    else err value_error

abbrev converted {ℓ} : {A : Type ℓ} → (Str → Result A) → Result Str → Result A
converted f (ok v) = f v
converted f (err e) = err e

unfoldable pub getboolean : ConfigAdapter → Str → Bool → Result Bool
unfolding parser_get value_or_default boolean_of
getboolean a key default = value_or_default default (converted boolean_of (parser_get a key))

unfoldable pub getint : ConfigAdapter → Str → ℤ → Result ℤ
unfolding parser_get value_or_default int
getint a key default = value_or_default default (converted int (parser_get a key))

-- config[key]
unfoldable pub get_item : ConfigAdapter → Str → Result Str
unfolding get
get_item a key = elim (get a key) [ err e ↦ err e | ok none ↦ err key_error | ok (some v) ↦ ok v ]

-- parser.has_option: key in config
unfoldable pub contains : ConfigAdapter → Str → Bool
unfolding lower has_section
contains a key =
    let option = lower key in
    if a.section == [] || a.section == codes "DEFAULT"
    then Dict.contains a.parser.defaults option
    else if has_section a.parser a.section
    then Dict.contains (options_of (Dict.get a.parser.sections a.section)) option
      || Dict.contains a.parser.defaults option
    else false

-- d.update(more)
unfoldable pub update : Dict Str Str → Dict Str Str → Dict Str Str
update d [] = d
update d ((k, v) ∷ more) = update (Dict.put d k v) more

-- len(config)
unfoldable pub size : ConfigAdapter → Result ℕ
unfolding update has_section
size a =
    if has_section a.parser a.section || a.section == codes "DEFAULT"
    then ok (length (update a.parser.defaults (options_of (Dict.get a.parser.sections a.section))))
    else err no_section_error
