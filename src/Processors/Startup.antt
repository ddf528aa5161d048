-- ===== src/Processors/Startup.antt =====
-- ProcessorController.__init__ of server/recceiver/processors.py, from the parser that has read the
-- files. The plugins `P` are known by name, and `build` makes a processor `I` of one; it may raise.
pub mod Sections
use recsync.Prelude.{
  [], ◌∷◌, Bool, true, false, List, Option, none, some, Str, codes, Result, ok, err, key_error,
  ◌>>=◌, str_eq, if◌then◌else◌,
}
use recsync.Dict
use recsync.Dict.{Dict}
use recsync.Text.{is_space, strip, split, partition, comma}
use recsync.Configuration.{
  Parser, has_section, add_section, ConfigAdapter, config_adapter, parser_get, options_of,
}

abbrev named : Str × Str → Str × Str
named (plug, []) = (plug, plug)
named (plug, c ∷ inst) = (plug, c ∷ inst)

-- The names of the plugin and of the instance.
unfoldable pub proc_names : Str → Str × Str
unfolding strip is_space partition
proc_names item = named (partition b':' (strip is_space item))

-- if not parser.has_section(section): parser.add_section(section)
unfoldable pub with_section : Parser → Str → Result Parser
unfolding has_section add_section
with_section p section = if has_section p section then ok p else add_section p section

abbrev pub found_plug {ℓ} : {P : Type ℓ} → Option P → Result P
found_plug none = err key_error
found_plug (some plug) = ok plug

-- parser.set(section, option, value)
unfoldable pub set_option : Parser → Str → Str → Str → Parser
set_option p section option value = record p {
  sections =
      Dict.put p.sections section
        (Dict.put (options_of (Dict.get p.sections section)) option value);
}

-- The parser with the defaults; `configured` says that a file was given or read.
unfoldable pub with_defaults : Bool → Parser → Result Parser
unfolding with_section add_section set_option
with_defaults true p = with_section p (codes "recceiver")
with_defaults false p = do
  p ← add_section p (codes "recceiver")
  ok (set_option p (codes "recceiver") (codes "procs") (codes "show"))

module _ {P I : Type 0} (plugs : Dict Str P) (environ : Dict Str Str)
    (build : P → Str → ConfigAdapter → Result I) where
  -- the loop over the names
  unfoldable pub build_all : List Str → Parser → Result (List I × Parser)
  unfolding proc_names with_section config_adapter
  build_all [] p = ok ([], p)
  build_all (item ∷ items) p = do
    let (plugname, instname) = proc_names item
    plug ← found_plug (Dict.get plugs plugname)
    p ← with_section p instname
    inst ← build plug instname (config_adapter environ p instname)
    rest ← build_all items p
    ok (inst ∷ rest.0, rest.1)

  unfoldable pub processor_controller : Bool → Parser → Result (List I × Parser)
  unfolding build_all with_defaults parser_get config_adapter split
  processor_controller configured p = do
    p ← with_defaults configured p
    procs ← parser_get (config_adapter environ p (codes "recceiver")) (codes "procs")
    build_all (split comma procs) p

-- ProcessorController.config
unfoldable pub config : Dict Str Str → Parser → Str → Result ConfigAdapter
unfolding has_section config_adapter
config environ p section =
    if has_section p section then ok (config_adapter environ p section) else err key_error
