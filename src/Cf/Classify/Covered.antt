-- ===== src/Cf/Classify/Covered.antt =====
-- No name of a commit is lost on the way to the channels that are written.
use recsync.Prelude.{
  ◌≡◌, refl, [], ◌∷◌, ◌++◌, Bool, true, false, ◌||◌, List, Str, ok, err, key_error, guard,
  >>=-eq-ok, ok-injective, subst, str_eq, str_beq, arith, Bool-cases, inl, inr,
}
use recsync.Dict.{Dict}
use recsync.Sets.{set_contains, set_discard, set_contains-discard}
use recsync.Cf.PropertyName
use recsync.Cf.Config.{CfConfig}
use recsync.Cf.Property.{merge_property_lists}
use recsync.Cf.Channel.{CfChannel}
use recsync.Cf.Model.{IocInfo, RecordInfo, Name, text, name_eq}
use recsync.Cf.Registry.{Registry}
use recsync.Cf.Classify.{
  Entry, own, shared, Batch, is_empty, new_channel, aliases_of, status_and_time, let_go,
  kept_aliases, handle_channel_old_and_new, handle_channel, handle_channels,
}

-- The name that an entry writes.
abbrev pub entry_name : Entry → Str
entry_name (own ch) = ch.name
entry_name (shared name) = name

abbrev pub named : List Entry → Str → Bool
named [] n = false
named (e ∷ rest) n = str_beq (entry_name e) n || named rest n

-- A name that is still new, or is written.
abbrev pub covered : Batch → Str → Bool
covered b n = set_contains b.new_channels n || named b.channels n

pub named-append : (xs ys : List Entry) (n : Str) → named (xs ++ ys) n ≡ (named xs n || named ys n)
named-append [] ys n = refl
named-append (x ∷ xs) ys n = ground (arith, named-append xs ys n)

-- Taking a name out of the new ones and writing it.
moved :
    (b : Batch) (e : Entry) (n : Str)
    → covered b n ≡ true
    → covered
        (record b {
          channels = b.channels ++ e ∷ [];
          new_channels = set_discard b.new_channels (entry_name e);
        })
        n
      ≡ true
moved b e n h = ground (
  arith,
  named-append b.channels (e ∷ []) n,
  set_contains-discard b.new_channels (entry_name e) n,
)

module _ (c : CfConfig) (managed : List Str) (reg : Registry) (ioc : IocInfo)
    (records : Dict Str RecordInfo) where
  kept_aliases-covered :
      (ch : CfChannel) (aliases : List Str) (b b' : Batch) (n : Str)
      → kept_aliases c managed reg ioc records ch aliases b ≡ ok b'
      → covered b n ≡ true
      → covered b' n ≡ true
  unfolding kept_aliases
  kept_aliases-covered ch [] b b' n h k = subst (λ x. covered x n ≡ true) (ok-injective h) k
  kept_aliases-covered ch (a ∷ rest) b b' n h k =
      let (_, _, h') = >>=-eq-ok (guard (set_contains b.new_channels a) key_error) _ h in
      kept_aliases-covered ch rest _ b' n h' (moved b (new_channel a ioc.owner _) n k)

  handle_channel-covered :
      (deleted : List Name) (ch : CfChannel) (b b' : Batch) (n : Str)
      → handle_channel c managed reg ioc records deleted ch b ≡ ok b'
      → covered b n ≡ true
      → covered b' n ≡ true
  unfolding handle_channel handle_channel_old_and_new
  handle_channel-covered deleted ch b b' n h k =
      elim (Bool-cases (is_empty b.new_channels || set_contains deleted (text ch.name))) [
        | inl goes ↦
            let (entries, _, h') =
              >>=-eq-ok (let_go c managed reg ioc records ch) _ (rw (goes, handle_channel) at h) in
            subst (λ x. covered x n ≡ true) (ok-injective h')
              (ground (arith, named-append b.channels entries n))
        | inr stays ↦ elim (Bool-cases (set_contains b.new_channels ch.name)) [
          | inl kept ↦
              let ch' : CfChannel = record ch {
                properties =
                    merge_property_lists (status_and_time ioc PropertyName.active) ch.properties
                      managed;
              } in
              kept_aliases-covered ch' (aliases_of c records ch.name) _ b' n
                (rw (stays, handle_channel, kept) at h) (moved b (own ch') n k)
          | inr other ↦
              subst (λ x. covered x n ≡ true)
                (ok-injective (rw (stays, handle_channel, other) at h)) k
        ]
      ]

  -- What _handle_channels leaves: each name that was new is still new, or is written.
  pub handle_channels-covered :
      (deleted : List Name) (old : List CfChannel) (b b' : Batch) (n : Str)
      → handle_channels c managed reg ioc records deleted old b ≡ ok b'
      → covered b n ≡ true
      → covered b' n ≡ true
  unfolding handle_channels
  handle_channels-covered deleted [] b b' n h k = subst (λ x. covered x n ≡ true) (ok-injective h) k
  handle_channels-covered deleted (ch ∷ rest) b b' n h k =
      let (b1, h1, h2) = >>=-eq-ok (handle_channel c managed reg ioc records deleted ch b) _ h in
      handle_channels-covered deleted rest b1 b' n h2
        (handle_channel-covered deleted ch b b1 n h1 k)

  some_new : (s : List Str) (n : Str) → set_contains s n ≡ true → is_empty s ≡ false
  unfolding set_contains
  some_new [] n h = cc
  some_new (x ∷ s) n h = refl

  -- Where ChannelFinder has a channel for the IOC that a commit holds again and does not delete,
  -- with a first alias that is no name of the commit, and this channel comes first, the handling
  -- of the old channels raises KeyError.
  pub kept_alias_raises :
      (deleted : List Name) (ch : CfChannel) (rest : List CfChannel) (b : Batch) (a : Str)
      (more : List Str)
      → set_contains b.new_channels ch.name ≡ true
      → set_contains deleted (text ch.name) ≡ false
      → aliases_of c records ch.name ≡ a ∷ more
      → set_contains b.new_channels a ≡ false
      → handle_channels c managed reg ioc records deleted (ch ∷ rest) b ≡ err key_error
  unfolding handle_channels handle_channel handle_channel_old_and_new kept_aliases
  kept_alias_raises deleted ch rest b a more kept stays aliases apart =
      let busy = some_new b.new_channels ch.name kept in
      let gone : set_contains (set_discard b.new_channels ch.name) a ≡ false =
        ground (arith, set_contains-discard b.new_channels ch.name a) in
      rw (busy, stays, kept, aliases, gone)
