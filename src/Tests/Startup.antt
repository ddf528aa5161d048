-- ===== src/Tests/Startup.antt =====
-- The configuration, the addresses to announce to, and the start of the controller.
use recsync.Prelude.{
  ℕ, ◌≡◌, refl, [], ◌∷◌, ◌++◌, true, false, map, Str, codes, Result, ok, err, usage_error, arith,
  str_beq, str_eq,
}
use recsync.Dict
use recsync.Dict.{Dict}
use recsync.Text.{is_space, upper, split, comma}
use recsync.Text.Split.{join}
use recsync.Configuration.{
  Parser, ConfigAdapter, config_adapter, has_section, prefix_of, env_vars, parser_get, get_text,
}
use recsync.Configuration.Environment.{get_text-environment}
use recsync.Application.{SockAddress, addrlist}
use recsync.Application.Addresses.{written, addrlist-written}
use recsync.Processors.Startup.{processor_controller}
use recsync.Processors.Startup.Sections.{Started, processor_controller-Started}

abbrev parser : Parser
parser = record {
  defaults = [];
  sections =
      (
        codes "recceiver",
        (codes "procs", codes "show, db:lite") ∷ (codes "maxactive", codes "20") ∷ [],
      )
      ∷ (codes "lite", (codes "dbname", codes "%(kind)s.db") ∷ (codes "kind", codes "test") ∷ [])
      ∷ [];
}

abbrev variable : Str
variable = codes "RECCEIVER_RECCEIVER_MAXACTIVE"

named_so : prefix_of (codes "recceiver") ++ upper (codes "maxActive") ≡ variable
unfolding prefix_of upper
named_so = refl

get_text-environment_example :
    get_text
      (config_adapter
        ((prefix_of (codes "recceiver") ++ upper (codes "maxActive"), codes "5") ∷ [])
        parser
        (codes "recceiver"))
      (codes "maxActive")
      (codes "20")
    ≡ ok (codes "5")
unfolding has_section Dict.contains str_beq env_vars
get_text-environment_example =
    get_text-environment [] parser (codes "recceiver") (codes "maxActive") (codes "5") (codes "20")
      refl refl (refl, tt)

-- A value that names another option.
interpolated :
    get_text (config_adapter [] parser (codes "lite")) (codes "dbname") [] ≡ ok (codes "test.db")
unfolding get_text config_adapter Dict.contains str_beq
interpolated = refl

abbrev first_address : SockAddress
first_address = (codes "rx", 5049)

abbrev second_address : SockAddress
second_address = (codes "b1", 65535)

addrlist-written_example :
    addrlist (join b',' (map written (first_address ∷ second_address ∷ [])))
    ≡ ok (first_address ∷ second_address ∷ [])
unfolding is_space
addrlist-written_example = addrlist-written first_address (second_address ∷ []) (
  record { host = (refl, (refl, tt)); port = omega arith },
  (record { host = (refl, (refl, tt)); port = omega arith }, tt),
)

-- A port out of range, a missing one, and no address at all.
port_too_large : addrlist (codes "rx:65536") ≡ err usage_error
unfolding addrlist
port_too_large = refl

default_port : addrlist (codes " rx ,, b1:7") ≡ ok ((codes "rx", 5049) ∷ (codes "b1", 7) ∷ [])
unfolding addrlist
default_port = refl

no_address : addrlist [] ≡ ok ((codes "<broadcast>", 5049) ∷ [])
unfolding addrlist
no_address = refl

abbrev plugs : Dict Str ℕ
plugs = (codes "show", 1) ∷ (codes "db", 2) ∷ []

-- A processor is its plugin with its name.
abbrev build : ℕ → Str → ConfigAdapter → Result (ℕ × Str)
build plug name conf = ok (plug, name)

abbrev sections_after : Parser
sections_after = record parser { sections = parser.sections ++ (codes "show", []) ∷ [] }

started :
    processor_controller plugs [] build true parser
    ≡ ok ((1, codes "show") ∷ (2, codes "lite") ∷ [], sections_after)
unfolding processor_controller str_beq Dict.contains Dict.put
started = refl

processor_controller-Started_example :
    Started plugs [] build
      (split comma (codes "show, db:lite"))
      parser
      ((1, codes "show") ∷ (2, codes "lite") ∷ [], sections_after)
unfolding has_section Dict.contains str_beq parser_get config_adapter env_vars
processor_controller-Started_example =
    processor_controller-Started plugs [] build parser (codes "show, db:lite") _ refl refl started

-- Without a configuration there is one processor, show.
no_configuration :
    map
      (λ p. p.1)
      (elim (processor_controller plugs [] build false (record { defaults = []; sections = [] })) [
        | ok (insts, q) ↦ insts
        | err e ↦ []
      ])
    ≡ codes "show" ∷ []
unfolding processor_controller str_beq Dict.contains Dict.put
no_configuration = refl
