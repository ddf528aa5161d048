-- ===== src/Cf/Setup/Managed.antt =====
-- What a set-up manages: every property that a commit gives a channel, and that ChannelFinder has it.
use recsync.Prelude.{
  ◌≡◌, refl, [], ◌∷◌, Bool, true, false, List, Str, str_eq, str_beq, str_beq_iff, nat_eq, arith,
  All, All-weaken, Bool-cases, inl, inr, ◌==◌, if◌then◌else◌,
}
use recsync.Dict.{Dict}
use recsync.Dict.Values.{AllValues, AllValues-put}
use recsync.Sets.{set_contains, set_add, set_contains-add}
use recsync.Cf.PropertyName
use recsync.Cf.Config.{CfConfig}
use recsync.Cf.Setup.{Setup, set_update, required_names, values, with_ports, tags_of, setup_from}

-- n in s
abbrev pub Has : List Str → Str → Type 0
Has s n = set_contains s n ≡ true

Has-add : (s : List Str) (x n : Str) → Has s n → Has (set_add s x) n
Has-add s x n h = rw (set_contains-add s x n) (ground arith)

Has-add_self : (s : List Str) (x : Str) → Has (set_add s x) x
Has-add_self s x = rw (set_contains-add s x x) (ground (arith, str_beq_iff x x))

Has-update : (s names : List Str) (n : Str) → Has s n → Has (set_update s names) n
unfolding set_update
Has-update s [] n h = h
Has-update s (x ∷ names) n h = Has-update (set_add s x) names n (Has-add s x n h)

Has-update_new : (s names : List Str) (n : Str) → Has names n → Has (set_update s names) n
unfolding set_update set_contains
Has-update_new s [] n h = cc
Has-update_new s (x ∷ names) n h = elim (Bool-cases (x == n)) [
  | inl same ↦ Has-update (set_add s x) names n (rw (set_contains-add s x n) (ground arith))
  | inr other ↦ Has-update_new (set_add s x) names n (ground arith)
]

Has-values : (env : Dict Str Str) → All (λ e. Has (values env) e.1) env
unfolding set_contains
Has-values [] = tt
Has-values ((k, v) ∷ env) = (
  ground (arith, str_beq_iff v v),
  All-weaken (λ e. Has (values env) e.1) (λ e. Has (v ∷ values env) e.1) (λ e h. ground arith) env
      (Has-values env),
)

AllValues-weaken :
    (s t : List Str)
    → ((n : Str) → Has s n → Has t n)
    → (env : Dict Str Str) → AllValues (Has s) env
    → AllValues (Has t) env
AllValues-weaken s t weaker env h =
    All-weaken (λ e. Has s e.1) (λ e. Has t e.1) (λ e. weaker e.1) env h

-- The standard properties of an IOC.
abbrev pub standard : List Str
standard =
    PropertyName.host_name ∷ PropertyName.ioc_name ∷ PropertyName.ioc_id ∷ PropertyName.ioc_ip
    ∷ PropertyName.pv_status ∷ PropertyName.time ∷ PropertyName.recceiver_id ∷ []

-- Whatever a commit may name is managed.
pub record Covers (c : CfConfig) (s : Setup) : Type 0 where
  pub of_ioc : All (Has s.managed_properties) standard
  pub of_type :
      (if c.record_type_enabled
        then set_contains s.managed_properties PropertyName.record_type
        else true)
      ≡ true
  pub of_alias :
      (if c.alias_enabled then set_contains s.managed_properties PropertyName.alias else true)
      ≡ true
  pub of_env : AllValues (Has s.managed_properties) s.whitelist.env_vars
  pub of_tags :
      (n : Str) → Has s.whitelist.record_property_names_list n → Has s.managed_properties n

-- What is required before the variables.
record Requires (c : CfConfig) (m : List Str) : Type 0 where
  of_ioc : All (Has m) standard
  of_type : (if c.record_type_enabled then set_contains m PropertyName.record_type else true) ≡ true
  of_alias : (if c.alias_enabled then set_contains m PropertyName.alias else true) ≡ true

Requires-grow :
    (c : CfConfig) (m n : List Str) → ((x : Str) → Has m x → Has n x) → Requires c m → Requires c n
Requires-grow c m n grows r = record {
  of_ioc = All-weaken (Has m) (Has n) grows standard r.of_ioc;
  of_type = if_grows c.record_type_enabled PropertyName.record_type r.of_type;
  of_alias = if_grows c.alias_enabled PropertyName.alias r.of_alias;
}
  where
    if_grows :
        (b : Bool) (x : Str)
        → (if b then set_contains m x else true) ≡ true
        → (if b then set_contains n x else true) ≡ true
    if_grows true x h = grows x h
    if_grows false x h = refl

required_names-Requires : (c : CfConfig) → Requires c (required_names c)
unfolding required_names set_contains str_beq
required_names-Requires c = by_flags c.record_type_enabled c.alias_enabled refl refl
  where
    by_flags :
        (t a : Bool)
        → c.record_type_enabled ≡ t
        → c.alias_enabled ≡ a
        → Requires c (required_names c)
    by_flags true true et ea =
        rw (et, ea)
          (record {
            of_ioc = (refl, (refl, (refl, (refl, (refl, (refl, (refl, tt)))))));
            of_type = refl;
            of_alias = refl;
          })
    by_flags true false et ea =
        rw (et, ea)
          (record {
            of_ioc = (refl, (refl, (refl, (refl, (refl, (refl, (refl, tt)))))));
            of_type = refl;
            of_alias = refl;
          })
    by_flags false true et ea =
        rw (et, ea)
          (record {
            of_ioc = (refl, (refl, (refl, (refl, (refl, (refl, (refl, tt)))))));
            of_type = refl;
            of_alias = refl;
          })
    by_flags false false et ea =
        rw (et, ea)
          (record {
            of_ioc = (refl, (refl, (refl, (refl, (refl, (refl, (refl, tt)))))));
            of_type = refl;
            of_alias = refl;
          })

with_ports-Has :
    (s : List Str) (env : Dict Str Str)
    → AllValues (Has s) env
    → Has s PropertyName.ca_port
    → Has s PropertyName.pva_port
    → AllValues (Has s) (with_ports env)
unfolding with_ports
with_ports-Has s env h ca pva = AllValues-put (Has s) _ _ _ (AllValues-put (Has s) env _ _ h ca) pva

pub setup_from-Covers : (c : CfConfig) (env : Dict Str Str) → Covers c (setup_from c env)
unfolding setup_from
setup_from-Covers c env = elim (Bool-cases c.ioc_connection_info) [
  | inl ports ↦
      let full =
        set_update (set_add (set_add base PropertyName.ca_port) PropertyName.pva_port) tags in
      let grows : (n : Str) → Has base n → Has full n =
        λ n h. Has-update _ tags n (Has-add _ _ n (Has-add base _ n h)) in
      let r = Requires-grow c base full grows required in
      rw ports (record {
        of_ioc = r.of_ioc;
        of_type = r.of_type;
        of_alias = r.of_alias;
        of_env =
            with_ports-Has full env (AllValues-weaken base full grows env of_values)
              (Has-update _ tags _ (Has-add _ _ _ (Has-add_self base PropertyName.ca_port)))
              (Has-update _ tags _ (Has-add_self _ PropertyName.pva_port));
        of_tags = Has-update_new _ tags;
      })
  | inr no_ports ↦
      let full = set_update base tags in
      let grows : (n : Str) → Has base n → Has full n = λ n h. Has-update base tags n h in
      let r = Requires-grow c base full grows required in
      rw no_ports (record {
        of_ioc = r.of_ioc;
        of_type = r.of_type;
        of_alias = r.of_alias;
        of_env = AllValues-weaken base full grows env of_values;
        of_tags = Has-update_new base tags;
      })
]
  where
    base : List Str
    base = set_update (required_names c) (values env)

    tags : List Str
    tags = tags_of c

    required : Requires c base
    required =
        Requires-grow c (required_names c) base (Has-update (required_names c) (values env))
          (required_names-Requires c)

    of_values : AllValues (Has base) env
    of_values =
        AllValues-weaken (values env) base (Has-update_new (required_names c) (values env)) env
          (Has-values env)
