-- ===== src/Cf/Classify/Active/Handled.antt =====
-- The old channels of a commit are handled without an inactive entry for a record of it.
use recsync.Prelude.{
  ◌≡◌, refl, [], ◌∷◌, ◌++◌, true, false, List, map, Str, ok, key_error, guard, ◌>>=◌, >>=-eq-ok,
  ok-injective, subst, str_eq, str_beq, str_beq_iff, arith, All-append, Bool-cases, inl, inr, ◌⊎◌,
}
use recsync.Dict.{Dict}
use recsync.Sets.{set_contains, set_contains-discard}
use recsync.Cf.PropertyName
use recsync.Cf.Config.{CfConfig}
use recsync.Cf.Property.{merge_property_lists}
use recsync.Cf.Channel.{CfChannel}
use recsync.Cf.Model.{IocInfo, RecordInfo, Name, text, name_eq}
use recsync.Cf.Registry.{Registry}
use recsync.Cf.Classify.{
  Batch, is_empty, aliases_of, status_and_time, let_go, kept_aliases, handle_channel_old_and_new,
  handle_channel, handle_channels,
}
use recsync.Cf.Classify.Active.{is_active-merge, AllActive, active_entry, lacks, let_go-AllActive}

abbrev pub channel_names : List CfChannel → List Str
channel_names chs = map (λ ch. ch.name) chs

-- No name stands twice among the channels.
abbrev pub Distinct : List CfChannel → Type 0
Distinct [] = Unit {0}
Distinct (ch ∷ rest) = (set_contains (channel_names rest) ch.name ≡ false) × Distinct rest

module _ (n : Str) (c : CfConfig) (managed : List Str) (reg : Registry) (ioc : IocInfo)
    (records : Dict Str RecordInfo) where
  -- the channel as it is kept
  abbrev kept : CfChannel → CfChannel
  kept ch = record ch {
    properties =
        merge_property_lists (status_and_time ioc PropertyName.active) ch.properties managed;
  }

  -- Whether a batch is right for the old channels that are left: the name is new and none of the
  -- written entries is inactive, or no channel that is left has the name.
  pub record OnTrack (b : Batch) (left : List Str) : Type 0 where
    pub active : AllActive n [] b.channels
    pub known : b.existing_channels ≡ []
    pub once : (set_contains b.new_channels n ≡ true) ⊎ (set_contains left n ≡ false)

  module _ (apart : (m : Str) → lacks (aliases_of c records m) n ≡ true) where
    kept_aliases-OnTrack :
        (ch : CfChannel) (aliases : List Str) (b b' : Batch) (left : List Str)
        → lacks aliases n ≡ true
        → kept_aliases c managed reg ioc records ch aliases b ≡ ok b'
        → OnTrack b left
        → OnTrack b' left
    unfolding kept_aliases set_contains
    kept_aliases-OnTrack ch [] b b' left h e t = subst (λ x. OnTrack x left) (ok-injective e) t
    kept_aliases-OnTrack ch (a ∷ rest) b b' left h e t =
        let (_, _, e') = >>=-eq-ok (guard (set_contains b.new_channels a) key_error) _ e in
        kept_aliases-OnTrack ch rest _ b' left (ground arith) e' (record {
          active = All-append _ b.channels _ t.active (ground arith, tt);
          known = t.known;
          once = elim t.once [
            | inl new ↦ inl (rw (set_contains-discard b.new_channels a n) (ground arith))
            | inr gone ↦ inr gone
          ];
        })

    old_and_new-OnTrack :
        (ch : CfChannel) (b b' : Batch) (left : List Str)
        → handle_channel_old_and_new c managed reg ioc records ch b ≡ ok b'
        → (set_contains left ch.name ≡ false)
        → OnTrack b (ch.name ∷ left)
        → OnTrack b' left
    unfolding handle_channel_old_and_new set_contains
    old_and_new-OnTrack ch b b' left e distinct t =
        kept_aliases-OnTrack (kept ch) (aliases_of c records ch.name) _ b' left (apart ch.name) e
          (record {
            active = All-append _ b.channels _ t.active (
              active_entry n [] (kept ch) (
                  is_active-merge (status_and_time ioc PropertyName.active) ch.properties managed
                    (unfold status_and_time in unfold str_beq in refl)),
              tt,
            );
            known = t.known;
            once = elim (Bool-cases (str_beq ch.name n)) [
              | inl same ↦ inr (ground (arith, str_beq_iff ch.name n))
              | inr other ↦ elim t.once [
                | inl new ↦ inl (rw (set_contains-discard b.new_channels ch.name n) (ground arith))
                | inr gone ↦ inr (ground arith)
              ]
            ];
          })

    passed_over :
        (ch : CfChannel) (b : Batch) (left : List Str)
        → set_contains b.new_channels ch.name ≡ false
        → OnTrack b (ch.name ∷ left)
        → OnTrack b left
    unfolding set_contains
    passed_over ch b left old t = record {
      active = t.active;
      known = t.known;
      once = elim t.once [ inl new ↦ inl new | inr gone ↦ inr (ground arith) ];
    }

    let_go-OnTrack :
        (ch : CfChannel) (b b' : Batch) (left : List Str)
        → (let_go c managed reg ioc records ch >>= λ entries.
            ok (record b { channels = b.channels ++ entries }))
          ≡ ok b'
        → is_empty b.new_channels ≡ true
        → OnTrack b (ch.name ∷ left)
        → OnTrack b' left
    unfolding set_contains
    let_go-OnTrack ch b b' left e none_new t =
        let (entries, e1, h1) = >>=-eq-ok (let_go c managed reg ioc records ch) _ e in
        let gone = not_left b.new_channels none_new t.once in
        subst (λ x. OnTrack x left) (ok-injective h1)
          (record {
            active = All-append _ b.channels entries t.active (
                let_go-AllActive n c managed reg ioc records ch entries (ground arith)
                  (apart ch.name) e1);
            known = t.known;
            once = inr (ground arith);
          })
      where
        not_left :
            (new : List Str)
            → is_empty new ≡ true
            → (set_contains new n ≡ true) ⊎ (set_contains (ch.name ∷ left) n ≡ false)
            → set_contains (ch.name ∷ left) n ≡ false
        not_left [] h (inl there) = absurd (ground arith)
        not_left [] h (inr gone) = gone
        not_left (x ∷ new) h o = cc

    handle_channel-OnTrack :
        (deleted : List Name) (ch : CfChannel) (b b' : Batch) (left : List Str)
        → set_contains deleted (text ch.name) ≡ false
        → set_contains left ch.name ≡ false
        → handle_channel c managed reg ioc records deleted ch b ≡ ok b'
        → OnTrack b (ch.name ∷ left)
        → OnTrack b' left
    unfolding handle_channel
    handle_channel-OnTrack deleted ch b b' left stays distinct e t =
        elim (Bool-cases (is_empty b.new_channels)) [
          | inl none_new ↦ let_go-OnTrack ch b b' left (rw none_new at e) none_new t
          | inr some_new ↦ elim (Bool-cases (set_contains b.new_channels ch.name)) [
            | inl new ↦
                old_and_new-OnTrack ch b b' left (rw new at (rw stays at (rw some_new at e)))
                  distinct t
            | inr old ↦
                subst (λ x. OnTrack x left)
                  (ok-injective (rw old at (rw stays at (rw some_new at e))))
                  (passed_over ch b left old t)
          ]
        ]

    pub handle_channels-OnTrack :
        (deleted : List Name) (old : List CfChannel) (b b' : Batch)
        → ((m : Str) → set_contains deleted (text m) ≡ false)
        → Distinct old
        → handle_channels c managed reg ioc records deleted old b ≡ ok b'
        → OnTrack b (channel_names old)
        → OnTrack b' []
    unfolding handle_channels
    handle_channels-OnTrack deleted [] b b' stays distinct e t =
        subst (λ x. OnTrack x []) (ok-injective e) t
    handle_channels-OnTrack deleted (ch ∷ rest) b b' stays distinct e t =
        let (b1, e1, h1) = >>=-eq-ok (handle_channel c managed reg ioc records deleted ch b) _ e in
        handle_channels-OnTrack deleted rest b1 b' stays distinct.1 h1 (
          handle_channel-OnTrack deleted ch b b1 (channel_names rest) (stays ch.name) distinct.0 e1
            t)
