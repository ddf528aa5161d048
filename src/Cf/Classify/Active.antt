-- ===== src/Cf/Classify/Active.antt =====
-- What a commit writes under the name of one of its records, of the channels that ChannelFinder has.
pub mod Handled
use recsync.Prelude.{
  ◌≡◌, refl, [], ◌∷◌, ◌++◌, Bool, true, false, not, ◌&&◌, ◌||◌, List, map, Option, none, some, Str,
  Result, ok, err, key_error, guard, ◌>>=◌, ◌>>◌, >>=-eq-ok, ok-injective, subst, str_eq, str_beq,
  str_beq_iff, arith, All, All-append, Bool-cases, Option-cases, inl, inr, ◌⊎◌, sym, if◌then◌else◌,
}
use recsync.Dict
use recsync.Dict.{Dict}
use recsync.Sets.{set_contains, set_discard, set_contains-discard}
use recsync.Cf.PropertyName
use recsync.Cf.Config.{CfConfig}
use recsync.Cf.Property.{CfProperty, property, merge_property_lists}
use recsync.Cf.Property.Merge.{merge_property_lists_lem}
use recsync.Cf.Channel.{CfChannel}
use recsync.Cf.Model.{IocInfo, RecordInfo, Name, text, name_eq}
use recsync.Cf.Registry.{Registry, ids_of}
use recsync.Cf.Classify.{
  Entry, own, shared, Batch, is_empty, last, new_channel, aliases_of, status_and_time,
  create_default_properties, old_alias, old_aliases, handle_channel_is_old, orphan_channel, let_go,
  kept_aliases, handle_channel_old_and_new, handle_channel, handle_channels,
}

-- The first property of the name has the value Active.
abbrev pub is_active : List CfProperty → Bool
is_active [] = false
is_active (p ∷ ps) =
    if str_beq p.name PropertyName.pv_status
    then elim p.value [ none ↦ false | some v ↦ str_beq v PropertyName.active ]
    else is_active ps

pub is_active-append :
    (new more : List CfProperty) → is_active new ≡ true → is_active (new ++ more) ≡ true
is_active-append [] more h = cc
is_active-append (p ∷ new) more h = ground (arith, is_active-append new more)

pub is_active-merge :
    (new old : List CfProperty) (managed : List Str)
    → is_active new ≡ true
    → is_active (merge_property_lists new old managed) ≡ true
is_active-merge new old managed h =
    rw (merge_property_lists_lem new old managed) (is_active-append new _ h)

-- A channel of this name is active.
abbrev pub active_if_named : Str → CfChannel → Bool
active_if_named n ch = not (str_beq ch.name n) || is_active ch.properties

-- So is the channel that an entry writes, as it is now, and it is there.
abbrev pub writes_active : Str → Dict Str CfChannel → Entry → Bool
writes_active n existing (own ch) = active_if_named n ch
writes_active n existing (shared name) = elim (Dict.get existing name) [
  | none ↦ false
  | some ch ↦ active_if_named n ch
]

abbrev pub AllActive : Str → Dict Str CfChannel → List Entry → Type 0
AllActive n existing entries = All (λ e. writes_active n existing e ≡ true) entries

pub active_entry :
    (n : Str) (existing : Dict Str CfChannel) (ch : CfChannel)
    → is_active ch.properties ≡ true
    → writes_active n existing (own ch) ≡ true
active_entry n existing ch h = ground arith

other_entry :
    (n : Str) (existing : Dict Str CfChannel) (ch : CfChannel)
    → str_beq ch.name n ≡ false
    → writes_active n existing (own ch) ≡ true
other_entry n existing ch h = ground arith

-- None of the names is `n`.
abbrev pub lacks : List Str → Str → Bool
lacks names n = not (set_contains names n)

module _ (n : Str) where
  others :
      (owner : Str) (properties : List CfProperty) (names : List Str)
      → lacks names n ≡ true
      → AllActive n [] (map (λ a. new_channel a owner properties) names)
  unfolding set_contains
  others owner properties [] h = tt
  others owner properties (a ∷ names) h =
      (ground arith, others owner properties names (ground arith))

  module _ (c : CfConfig) (managed : List Str) (reg : Registry) (ioc : IocInfo)
      (records : Dict Str RecordInfo) where
    with_ioc :
        (ch : CfChannel) (a : Str) (info : Option IocInfo) (entries : List Entry)
        → str_beq a n ≡ false
        → (elim info [
          | none ↦ ok []
          | some found ↦ create_default_properties c managed reg ioc records ch >>= λ properties.
              ok (new_channel a found.owner (merge_property_lists properties [] managed) ∷ [])
        ])
          ≡ ok entries
        → AllActive n [] entries
    with_ioc ch a none entries other h = subst (AllActive n []) (ok-injective h) tt
    with_ioc ch a (some found) entries other h =
        let (properties, e, h') =
          >>=-eq-ok (create_default_properties c managed reg ioc records ch) _ h in
        subst (AllActive n []) (ok-injective h') (ground arith, tt)

    old_alias-AllActive :
        (ch : CfChannel) (a : Str) (entries : List Entry)
        → str_beq a n ≡ false
        → old_alias c managed reg ioc records ch a ≡ ok entries
        → AllActive n [] entries
    unfolding old_alias
    old_alias-AllActive ch a entries other h =
        elim (Bool-cases (Dict.contains reg.channel_ioc_ids (text a))) [
          | inl there ↦
              let (i, e, h') = >>=-eq-ok (last (ids_of reg (text a))) _ (rw there at h) in
              with_ioc ch a (Dict.get reg.iocs i) entries other h'
          | inr absent ↦ subst (AllActive n []) (ok-injective (rw absent at h)) tt
        ]

    orphan-AllActive :
        (ch : CfChannel)
        → str_beq ch.name n ≡ false
        → lacks (aliases_of c records ch.name) n ≡ true
        → AllActive n [] (orphan_channel c managed reg ioc records ch)
    unfolding orphan_channel
    orphan-AllActive ch other h = (ground arith, others [] _ (aliases_of c records ch.name) h)

    old_aliases-AllActive :
        (ch : CfChannel) (names : List Str) (entries : List Entry)
        → lacks names n ≡ true
        → old_aliases c managed reg ioc records ch names ≡ ok entries
        → AllActive n [] entries
    unfolding old_aliases set_contains
    old_aliases-AllActive ch [] entries h e = subst (AllActive n []) (ok-injective e) tt
    old_aliases-AllActive ch (a ∷ names) entries h e =
        let (first, e1, h1) = >>=-eq-ok (old_alias c managed reg ioc records ch a) _ e in
        let (more, e2, h2) = >>=-eq-ok (old_aliases c managed reg ioc records ch names) _ h1 in
        subst (AllActive n []) (ok-injective h2) (
          All-append _ first more (old_alias-AllActive ch a first (ground arith) e1)
            (old_aliases-AllActive ch names more (ground arith) e2))

    is_old-AllActive :
        (ch : CfChannel) (info : IocInfo) (entries : List Entry)
        → str_beq ch.name n ≡ false
        → lacks (aliases_of c records ch.name) n ≡ true
        → handle_channel_is_old c managed reg ioc records ch info ≡ ok entries
        → AllActive n [] entries
    unfolding handle_channel_is_old
    is_old-AllActive ch info entries other h e =
        let (properties, e1, h1) =
          >>=-eq-ok (create_default_properties c managed reg ioc records ch) _ e in
        let (aliases, e2, h2) =
          >>=-eq-ok (old_aliases c managed reg ioc records ch (aliases_of c records ch.name)) _
            h1 in
        subst (AllActive n []) (ok-injective h2)
          (ground arith, old_aliases-AllActive ch (aliases_of c records ch.name) aliases h e2)

    gone_with :
        (ch : CfChannel) (info : Option IocInfo) (entries : List Entry)
        → str_beq ch.name n ≡ false
        → lacks (aliases_of c records ch.name) n ≡ true
        → (elim info [
          | none ↦ ok (orphan_channel c managed reg ioc records ch)
          | some found ↦ handle_channel_is_old c managed reg ioc records ch found
        ])
          ≡ ok entries
        → AllActive n [] entries
    gone_with ch none entries other h e =
        subst (AllActive n []) (ok-injective e) (orphan-AllActive ch other h)
    gone_with ch (some found) entries other h e = is_old-AllActive ch found entries other h e

    pub let_go-AllActive :
        (ch : CfChannel) (entries : List Entry)
        → str_beq ch.name n ≡ false
        → lacks (aliases_of c records ch.name) n ≡ true
        → let_go c managed reg ioc records ch ≡ ok entries
        → AllActive n [] entries
    unfolding let_go
    let_go-AllActive ch entries other h e =
        elim (Bool-cases (Dict.contains reg.channel_ioc_ids (text ch.name))) [
          | inl there ↦
              let (i, e1, h1) = >>=-eq-ok (last (ids_of reg (text ch.name))) _ (rw there at e) in
              gone_with ch (Dict.get reg.iocs i) entries other h h1
          | inr absent ↦
              subst (AllActive n []) (ok-injective (rw absent at e)) (orphan-AllActive ch other h)
        ]
