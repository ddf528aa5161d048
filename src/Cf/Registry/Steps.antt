-- ===== src/Cf/Registry/Steps.antt =====
-- A property of the tables that each method keeps is kept by the commit's changes of them.
use recsync.Prelude.{
  ◌≡◌, refl, [], ◌∷◌, List, map, Str, ok, err, nat_eq, str_eq, if◌then◌else◌, Bool-cases,
  Option-cases, inl, inr,
}
use recsync.Dict
use recsync.Dict.{Dict, get-pop}
use recsync.Sets.{set_contains}
use recsync.Recast.Transaction.{Transaction}
use recsync.Cf.Config.{CfConfig}
use recsync.Cf.Model.{IocInfo, id, RecordInfo, Name, text, number, name_eq}
use recsync.Cf.Registry.{
  Registry, Outcome, ◌|>◌, ids_of, touch, register, register_aliases, remove_channel,
  remove_channels, remove_aliases, aliases_of_record, register_records, aliases_too,
  unregister_records, update_ioc_infos, enter_ioc,
}

-- The methods that change the tables keep `P`, the one that registers where it raises nothing.
pub record Keeps {ℓ} (P : Registry → Type ℓ) : Type ℓ where
  pub registers :
      (n : Name) (i : Str) (r : Registry) → P r → (register n i r).0 ≡ ok tt → P (register n i r).1
  pub touches : (r : Registry) (n : Name) → P r → P (touch r n)
  pub removes : (n : Name) (i : Str) (r : Registry) → P r → P (remove_channel n i r).1

module _ {ℓ} (P : Registry → Type ℓ) (k : Keeps P) where
  -- What two steps in a row keep, when they succeed.
  then-keeps :
      (m : Outcome) (f : Registry → Outcome)
      → (m.0 ≡ ok tt → P m.1)
      → ((r : Registry) → P r → (f r).0 ≡ ok tt → P (f r).1)
      → (m |> f).0 ≡ ok tt
      → P (m |> f).1
  then-keeps (ok u, r) f hm hf h = hf r (hm refl) h
  then-keeps (err e, r) f hm hf h = cc

  register_aliases-keeps :
      (aliases : List Str) (i : Str) (r : Registry)
      → P r
      → (register_aliases aliases i r).0 ≡ ok tt
      → P (register_aliases aliases i r).1
  unfolding register_aliases
  register_aliases-keeps [] i r a h = a
  register_aliases-keeps (n ∷ ns) i r a h =
      then-keeps (register (text n) i r) (register_aliases ns i) (k.registers (text n) i r a)
        (register_aliases-keeps ns i) h

  remove_channels-keeps :
      (ns : List Name) (i : Str) (r : Registry)
      → P r
      → (remove_channels ns i r).0 ≡ ok tt
      → P (remove_channels ns i r).1
  unfolding remove_channels
  remove_channels-keeps [] i r a h = a
  remove_channels-keeps (n ∷ ns) i r a h =
      then-keeps (remove_channel n i r) (remove_channels ns i) (λ _. k.removes n i r a)
        (remove_channels-keeps ns i) h

  module _ (c : CfConfig) (i : Str) where
    aliases_of_record-keeps :
        (info : RecordInfo) (r : Registry)
        → P r
        → (aliases_of_record c i info r).0 ≡ ok tt
        → P (aliases_of_record c i info r).1
    unfolding aliases_of_record
    aliases_of_record-keeps info r a h = elim (Bool-cases c.alias_enabled) [
      | inl on ↦ rw on (register_aliases-keeps info.aliases i r a (rw on at h))
      | inr off ↦ rw off a
    ]

    register_records-keeps :
        (records : Dict Str RecordInfo) (r : Registry)
        → P r
        → (register_records c i records r).0 ≡ ok tt
        → P (register_records c i records r).1
    unfolding register_records
    register_records-keeps [] r a h = a
    register_records-keeps ((name, info) ∷ rest) r a h =
        then-keeps (register (text name) i r |> aliases_of_record c i info)
          (register_records c i rest)
          (then-keeps (register (text name) i r) (aliases_of_record c i info)
            (k.registers (text name) i r a) (aliases_of_record-keeps info))
          (register_records-keeps rest) h

  module _ (c : CfConfig) (i : Str) (records : Dict Str RecordInfo) where
    aliases_too-keeps :
        (name : Name) (r : Registry)
        → P r
        → (aliases_too c i records name r).0 ≡ ok tt
        → P (aliases_too c i records name r).1
    unfolding aliases_too remove_aliases
    aliases_too-keeps (number n) r a h = a
    aliases_too-keeps (text name) r a h = elim (Option-cases (Dict.get records name)) [
      | inl absent ↦ rw (absent, aliases_too) a
      | inr (info, found) ↦ elim (Bool-cases c.alias_enabled) [
        | inl on ↦
            rw (found, aliases_too, on)
              (remove_channels-keeps (map text info.aliases) i r a
                (rw (found, aliases_too, on) at h))
        | inr off ↦ rw (found, aliases_too, off) a
      ]
    ]

    unregister-keeps :
        (name : Name) (r : Registry)
        → P r
        → let out =
            if set_contains (ids_of r name) i
            then remove_channel name i r |> aliases_too c i records name
            else (ok tt, touch r name) in
          out.0 ≡ ok tt → P out.1
    unregister-keeps name r a h = elim (Bool-cases (set_contains (ids_of r name) i)) [
      | inl here ↦ rw here (
          then-keeps (remove_channel name i r) (aliases_too c i records name)
            (λ _. k.removes name i r a) (aliases_too-keeps name) (rw here at h))
      | inr gone ↦ rw gone (k.touches r name a)
    ]

    unregister_records-keeps :
        (names : List Name) (r : Registry)
        → P r
        → (unregister_records c i records names r).0 ≡ ok tt
        → P (unregister_records c i records names r).1
    unfolding unregister_records
    unregister_records-keeps [] r a h = a
    unregister_records-keeps (name ∷ rest) r a h =
        then-keeps _ (unregister_records c i records rest) (unregister-keeps name r a)
          (unregister_records-keeps rest) h

  pub update_ioc_infos-keeps :
      (c : CfConfig) (t : Transaction) (ioc : IocInfo) (deleted : List Name)
      (records : Dict Str RecordInfo) (r : Registry)
      → P (enter_ioc t.initial ioc r)
      → (update_ioc_infos c t ioc deleted records r).0.0 ≡ ok tt
      → P (update_ioc_infos c t ioc deleted records r).0.1
  unfolding update_ioc_infos
  update_ioc_infos-keeps c t ioc deleted records r p h =
      then-keeps _ (unregister_records c (id ioc) records _)
        (register_records-keeps c (id ioc) records _ p)
        (unregister_records-keeps c (id ioc) records _) h
