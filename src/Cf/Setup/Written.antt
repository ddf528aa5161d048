-- ===== src/Cf/Setup/Written.antt =====
-- The properties that a commit gives a channel are managed.
use recsync.Prelude.{
  ℕ, ◌≡◌, refl, [], ◌∷◌, Bool, true, false, List, map, Option, none, some, Str, str_eq, nat_eq,
  arith, All, All-append, Bool-cases, Option-cases, inl, inr, if◌then◌else◌, str_beq_iff,
}
use recsync.Dict
use recsync.Dict.{Dict}
use recsync.Dict.Values.{AllValues, AllValues-put, AllValues-get}
use recsync.Sets.{set_contains}
use recsync.Recast.Transaction.{Transaction}
use recsync.Cf.PropertyName
use recsync.Cf.Config.{CfConfig}
use recsync.Cf.Property.{CfProperty, create_ioc_properties}
use recsync.Cf.Model.{IocInfo, RecordInfo, id}
use recsync.Cf.Records.{
  Whitelist, new_info, new_records, amend, listed, add_tags, set_aliases, add_env, apply_env_vars,
  transaction_to_record_infos, by_name, record_info_by_name,
}
use recsync.Cf.Commit.{records_of}
use recsync.Cf.Update.{typed, new_properties}
use recsync.Cf.Setup.{setup_from}
use recsync.Cf.Setup.Managed.{Has, setup_from-Covers}

module _ (m : List Str) where
  abbrev IsManaged : CfProperty → Type 0
  IsManaged p = Has m p.name

  abbrev InfoManaged : RecordInfo → Type 0
  InfoManaged info = All IsManaged info.info_properties

  listed-IsManaged :
      (owner : Str) (keys : Dict Str Str) (infos : Dict Str Str)
      → AllValues (Has m) keys
      → All IsManaged (listed owner keys infos)
  unfolding listed
  listed-IsManaged owner [] infos h = tt
  listed-IsManaged owner ((key, name) ∷ rest) infos h = elim (Option-cases (Dict.get infos key)) [
    | inl e ↦ rw (e, listed) (listed-IsManaged owner rest infos h.1)
    | inr (v, e) ↦ rw (e, listed) (h.0, listed-IsManaged owner rest infos h.1)
  ]

  new_records-IsManaged :
      (c : CfConfig) (d : Dict ℕ (Str × Str)) (infos : Dict ℕ RecordInfo)
      → AllValues InfoManaged infos
      → AllValues InfoManaged (new_records c d infos)
  unfolding new_records new_info
  new_records-IsManaged c [] infos h = h
  new_records-IsManaged c ((i, (name, type)) ∷ d) infos h =
      new_records-IsManaged c d (Dict.put infos i (new_info c name type))
        (AllValues-put InfoManaged infos i (new_info c name type) h tt)

  amend-IsManaged {ℓ} :
      {V : Type ℓ} (change : V → RecordInfo → RecordInfo)
      → ((v : V) (info : RecordInfo) → InfoManaged info → InfoManaged (change v info))
      → (d : Dict ℕ V) (infos : Dict ℕ RecordInfo) → AllValues InfoManaged infos
      → AllValues InfoManaged (amend change d infos)
  unfolding amend
  amend-IsManaged change keeps [] infos h = h
  amend-IsManaged change keeps ((i, v) ∷ d) infos h = elim (Option-cases (Dict.get infos i)) [
    | inl e ↦ rw (e, amend) (amend-IsManaged change keeps d infos h)
    | inr (info, e) ↦
        rw (e, amend)
          (amend-IsManaged change keeps d (Dict.put infos i (change v info)) (
            AllValues-put InfoManaged infos i (change v info) h
              (keeps v info (AllValues-get InfoManaged infos i info h e))))
  ]

  apply_env_vars-IsManaged :
      (w : Whitelist) (ioc : IocInfo) (t : Transaction) (infos : Dict ℕ RecordInfo)
      → AllValues (Has m) w.env_vars
      → AllValues InfoManaged infos
      → AllValues InfoManaged (apply_env_vars w ioc t infos)
  unfolding apply_env_vars add_env
  apply_env_vars-IsManaged w ioc t [] env h = tt
  apply_env_vars-IsManaged w ioc t ((i, info) ∷ rest) env h = (
    All-append IsManaged info.info_properties (listed ioc.owner w.env_vars t.client_infos) h.0
        (listed-IsManaged ioc.owner w.env_vars t.client_infos env),
    apply_env_vars-IsManaged w ioc t rest env h.1,
  )

  tags-Has :
      (tags : List Str)
      → ((n : Str) → Has tags n → Has m n)
      → AllValues (Has m) (map (λ n. (n, n)) tags)
  unfolding set_contains
  tags-Has [] h = tt
  tags-Has (n ∷ tags) h =
      (h n (ground (arith, str_beq_iff n n)), tags-Has tags (λ x e. h x (ground arith)))

  infos-IsManaged :
      (c : CfConfig) (w : Whitelist) (ioc : IocInfo) (t : Transaction)
      → AllValues (Has m) w.env_vars
      → ((n : Str) → Has w.record_property_names_list n → Has m n)
      → AllValues InfoManaged (transaction_to_record_infos c w ioc t)
  unfolding transaction_to_record_infos
  infos-IsManaged c w ioc t env tags = apply_env_vars-IsManaged w ioc t _ env (
      amend-IsManaged set_aliases (λ v info h. unfold set_aliases in h) t.aliases _
        (amend-IsManaged (add_tags w ioc.owner) tagged t.record_infos_to_add _
          (new_records-IsManaged c t.records_to_add [] tt)))
    where
      tagged :
          (v : Dict Str Str) (info : RecordInfo)
          → InfoManaged info
          → InfoManaged (add_tags w ioc.owner v info)
      tagged v info h =
          unfold add_tags in
          All-append IsManaged info.info_properties
            (listed ioc.owner (map (λ n. (n, n)) w.record_property_names_list) v) h
            (listed-IsManaged ioc.owner _ v (tags-Has w.record_property_names_list tags))

  by_name-IsManaged :
      (infos : Dict ℕ RecordInfo) (found : Dict Str RecordInfo)
      → AllValues InfoManaged infos
      → AllValues InfoManaged found
      → AllValues InfoManaged (by_name infos found)
  unfolding by_name
  by_name-IsManaged [] found hi hf = hf
  by_name-IsManaged ((i, info) ∷ rest) found hi hf =
      elim (Bool-cases (Dict.contains found info.pv_name)) [
        | inl twice ↦ rw twice (by_name-IsManaged rest found hi.1 hf)
        | inr first ↦ rw first (
            by_name-IsManaged rest (Dict.put found info.pv_name info) hi.1
              (AllValues-put InfoManaged found info.pv_name info hf hi.0))
      ]

  typed-IsManaged :
      (ioc : IocInfo) (type : Option Str)
      → Has m PropertyName.record_type
      → All IsManaged (typed ioc type)
  typed-IsManaged ioc none h = tt
  typed-IsManaged ioc (some []) h = tt
  typed-IsManaged ioc (some (c ∷ s)) h = (h, tt)

  if_typed-IsManaged :
      (enabled : Bool) (ioc : IocInfo) (type : Option Str)
      → (if enabled then set_contains m PropertyName.record_type else true) ≡ true
      → All IsManaged (if enabled then typed ioc type else [])
  if_typed-IsManaged true ioc type h = typed-IsManaged ioc type h
  if_typed-IsManaged false ioc type h = tt

  module _ (c : CfConfig) (ioc : IocInfo) (records : Dict Str RecordInfo)
      (infos : AllValues InfoManaged records) where
    abbrev standard_of : List CfProperty
    standard_of =
        create_ioc_properties ioc.owner ioc.time c.recceiver_id ioc.hostname ioc.ioc_name ioc.ioc_ip
          (id ioc)

    record_properties-IsManaged :
        (name : Str) (found : Option RecordInfo)
        → Dict.get records name ≡ found
        → All IsManaged standard_of
        → (if c.record_type_enabled then set_contains m PropertyName.record_type else true) ≡ true
        → All IsManaged (new_properties c m ioc records name)
    unfolding new_properties
    record_properties-IsManaged name none e std type =
        rw (e, new_properties) (All-append IsManaged standard_of [] std tt)
    record_properties-IsManaged name (some info) e std type =
        rw (e, new_properties)
          (All-append IsManaged standard_of _ std (
            All-append IsManaged (if c.record_type_enabled then typed ioc info.record_type else [])
              info.info_properties
              (if_typed-IsManaged c.record_type_enabled ioc info.record_type type)
              (AllValues-get InfoManaged records name info infos e)))

module _ (c : CfConfig) (env : Dict Str Str) (ioc : IocInfo) (t : Transaction) (name : Str) where
  -- Whatever is configured and uploaded, each property that a commit gives a new or moved channel,
  -- and the alias property where aliases are enabled, is among the properties that the set-up
  -- manages.
  pub new_properties-IsManaged :
      let s = setup_from c env in
      All
        (λ p. set_contains s.managed_properties p.name ≡ true)
        (new_properties c s.managed_properties ioc (records_of c s.whitelist ioc t) name)
      × ((if c.alias_enabled then set_contains s.managed_properties PropertyName.alias else true)
          ≡ true)
  unfolding records_of record_info_by_name create_ioc_properties
  new_properties-IsManaged =
      let s = setup_from c env in
      let covers = setup_from-Covers c env in
      let m = s.managed_properties in
      (
        record_properties-IsManaged m c ioc (records_of c s.whitelist ioc t)
            (by_name-IsManaged m (transaction_to_record_infos c s.whitelist ioc t) []
              (infos-IsManaged m c s.whitelist ioc t covers.of_env covers.of_tags) tt)
            name (Dict.get (records_of c s.whitelist ioc t) name) refl covers.of_ioc covers.of_type,
        covers.of_alias,
      )
