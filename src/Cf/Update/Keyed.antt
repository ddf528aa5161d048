-- ===== src/Cf/Update/Keyed.antt =====
-- The channels to write have the names that their entries have.
use recsync.Prelude.{
  ◌≡◌, refl, [], ◌∷◌, ◌++◌, true, List, Option, none, some, Str, Result, ok, err, key_error, str_eq,
  str_beq, str_beq_iff, arith, Option-cases, Bool-cases, inl, inr, subst, ok-injective, ◌==◌,
}
use recsync.Dict
use recsync.Dict.{Dict, get-put}
use recsync.Sets.{set_contains}
use recsync.Cf.Config.{CfConfig}
use recsync.Cf.Property.{CfProperty, merge_property_lists}
use recsync.Cf.Channel.{CfChannel}
use recsync.Cf.Model.{IocInfo, RecordInfo}
use recsync.Cf.Classify.{Entry, own, shared, Batch, new_channel, aliases_of}
use recsync.Cf.Classify.Covered.{named}
use recsync.Cf.Classify.Active.Handled.{channel_names}
use recsync.Cf.Update.{
  new_properties, update_shared, existing_aliases, create_new_channel, process_new_channel,
  process_new_channels, resolve, by_channel_name,
}

-- Each channel stands under its name.
abbrev pub Keyed : Dict Str CfChannel → Type 0
Keyed d = (k : Str) (ch : CfChannel) → Dict.get d k ≡ some ch → ch.name ≡ k

Keyed-put : (d : Dict Str CfChannel) (ch : CfChannel) → Keyed d → Keyed (Dict.put d ch.name ch)
Keyed-put d ch h k found e = elim (Bool-cases (ch.name == k)) [
  | inl same ↦ ground (arith, get-put d ch.name k ch, str_beq_iff ch.name k)
  | inr other ↦ h k found (ground (arith, get-put d ch.name k ch))
]

from-Keyed : (l : List CfChannel) (d : Dict Str CfChannel) → Keyed d → Keyed (by_channel_name l d)
unfolding by_channel_name
from-Keyed [] d h = h
from-Keyed (ch ∷ l) d h = from-Keyed l (Dict.put d ch.name ch) (Keyed-put d ch h)

pub by_channel_name-Keyed : (found : List CfChannel) → Keyed (by_channel_name found [])
by_channel_name-Keyed found =
    from-Keyed found [] (λ k ch e. absurd (unfold Dict.get in ground arith))

pub resolve_nil : (d : Dict Str CfChannel) (chs : List CfChannel) → resolve d [] ≡ ok chs → [] ≡ chs
unfolding resolve
resolve_nil d chs e = ok-injective e

-- what a result that is put in front of others was
consed :
    (ch : CfChannel) (r : Result (List CfChannel)) (chs : List CfChannel)
    → (elim r [ ok l ↦ ok (ch ∷ l) | err e ↦ err e ]) ≡ ok chs
    → (l : List CfChannel) × (r ≡ ok l) × (ch ∷ l ≡ chs)
consed ch (ok l) chs e = (l, refl, ok-injective e)
consed ch (err e') chs e = cc

pub resolve_own :
    (d : Dict Str CfChannel) (ch : CfChannel) (rest : List Entry) (chs : List CfChannel)
    → resolve d (own ch ∷ rest) ≡ ok chs
    → (l : List CfChannel) × (resolve d rest ≡ ok l) × (ch ∷ l ≡ chs)
unfolding resolve
resolve_own d ch rest chs e = consed ch (resolve d rest) chs e

pub resolve_shared :
    (d : Dict Str CfChannel) (name : Str) (rest : List Entry) (chs : List CfChannel)
    → resolve d (shared name ∷ rest) ≡ ok chs
    → (ch : CfChannel) × (l : List CfChannel) × (Dict.get d name ≡ some ch)
      × (resolve d rest ≡ ok l)
      × (ch ∷ l ≡ chs)
unfolding resolve
resolve_shared d name rest chs e = by_found (Dict.get d name) refl e
  where
    by_found :
        (o : Option CfChannel)
        → Dict.get d name ≡ o
        → (elim o [
          | none ↦ err key_error
          | some ch ↦ elim (resolve d rest) [ ok l ↦ ok (ch ∷ l) | err e ↦ err e ]
        ])
          ≡ ok chs
        → (ch : CfChannel) × (l : List CfChannel) × (Dict.get d name ≡ some ch)
          × (resolve d rest ≡ ok l)
          × (ch ∷ l ≡ chs)
    by_found none there h = cc
    by_found (some ch) there h =
        let (l, e1, e2) = consed ch (resolve d rest) chs h in (ch, l, there, e1, e2)

module _ (c : CfConfig) (managed : List Str) (ioc : IocInfo) (records : Dict Str RecordInfo) where
  update_shared-Keyed :
      (name : Str) (ch : CfChannel) (properties : List CfProperty) (b : Batch)
      → Dict.get b.existing_channels name ≡ some ch
      → Keyed b.existing_channels
      → Keyed (update_shared c managed ioc records name ch properties b).existing_channels
  unfolding update_shared
  update_shared-Keyed name ch properties b there h =
      let ch' : CfChannel = record ch {
        properties = merge_property_lists properties ch.properties managed;
      } in
      subst (λ k. Keyed (Dict.put b.existing_channels k ch')) (h name ch there)
        (Keyed-put b.existing_channels ch' h)

  existing_aliases-Keyed :
      (properties : List CfProperty) (names : List Str) (b : Batch)
      → Keyed b.existing_channels
      → Keyed (existing_aliases c managed ioc records properties names b).existing_channels
  unfolding existing_aliases
  existing_aliases-Keyed properties [] b h = h
  existing_aliases-Keyed properties (x ∷ rest) b h =
      elim (Option-cases (Dict.get b.existing_channels x)) [
        | inl absent ↦
            rw (absent, existing_aliases)
              (existing_aliases-Keyed properties rest
                (record b { channels = b.channels ++ new_channel x ioc.owner properties ∷ [] }) h)
        | inr (ch, there) ↦
            rw (there, existing_aliases)
              (existing_aliases-Keyed properties rest
                (update_shared c managed ioc records x ch properties b)
                (update_shared-Keyed x ch properties b there h))
      ]

  process_new_channel-Keyed :
      (name : Str) (b : Batch)
      → Keyed b.existing_channels
      → Keyed (process_new_channel c managed ioc records name b).existing_channels
  unfolding process_new_channel create_new_channel
  process_new_channel-Keyed name b h = elim (Option-cases (Dict.get b.existing_channels name)) [
    | inl absent ↦ rw (absent, process_new_channel) h
    | inr (ch, there) ↦
        rw (there, process_new_channel)
          (existing_aliases-Keyed _ (aliases_of c records name)
            (update_shared c managed ioc records name ch (new_properties c managed ioc records name)
              b)
            (update_shared-Keyed name ch (new_properties c managed ioc records name) b there h))
  ]

  pub process_new_channels-Keyed :
      (names : List Str) (b : Batch)
      → Keyed b.existing_channels
      → Keyed (process_new_channels c managed ioc records names b).existing_channels
  unfolding process_new_channels
  process_new_channels-Keyed [] b h = h
  process_new_channels-Keyed (name ∷ rest) b h =
      process_new_channels-Keyed rest (process_new_channel c managed ioc records name b)
        (process_new_channel-Keyed name b h)

pub resolve-named :
    (d : Dict Str CfChannel) (entries : List Entry) (chs : List CfChannel) (n : Str)
    → Keyed d
    → resolve d entries ≡ ok chs
    → named entries n ≡ true
    → set_contains (channel_names chs) n ≡ true
unfolding set_contains
resolve-named d [] chs n h e k = cc
resolve-named d (own ch ∷ rest) chs n h e k =
    let (l, e1, e2) = resolve_own d ch rest chs e in
    subst (λ x. set_contains (channel_names x) n ≡ true) e2
      (elim (Bool-cases (str_beq ch.name n)) [
        | inl same ↦ rw same refl
        | inr other ↦ rw other (resolve-named d rest l n h e1 (rw other at k))
      ])
resolve-named d (shared name ∷ rest) chs n h e k =
    let (ch, l, there, e1, e2) = resolve_shared d name rest chs e in
    let key = h name ch there in
    subst (λ x. set_contains (channel_names x) n ≡ true) e2
      (elim (Bool-cases (str_beq name n)) [
        | inl same ↦ ground (arith, key)
        | inr other ↦
            let tail = resolve-named d rest l n h e1 (rw other at k) in ground (arith, key, tail)
      ])
