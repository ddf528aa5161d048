-- ===== src/Cf/Setup/Registered.antt =====
-- A service that takes every property has all managed ones after the set-up.
use recsync.Prelude.{
  ◌and_then◌, ◌≡◌, refl, [], ◌∷◌, true, false, Bool, List, Str, ok, str_eq, str_beq_iff, arith,
  Bool-cases, inl, inr, ◌==◌, if◌then◌else◌,
}
use recsync.Dict.{Dict}
use recsync.Sets.{set_contains}
use recsync.Cf.Config.{CfConfig}
use recsync.Cf.Adapter.{Client, set_property}
use recsync.Cf.Setup.{
  env_vars_of, setup_from, set_minus, set_properties, register_missing, setup_cf_properties,
}

-- `has` says which properties a service has. A registration adds the property that it names.
abbrev pub Registers {ℓ} : {W : Type ℓ} → Client W → (W → Str → Bool) → Str → Type ℓ
Registers {W = W} client has owner =
    (name : Str) (w : W)
    → (v : W) × (set_property client name owner w ≡ (ok tt, v))
      × ((n : Str) → has v n ≡ (if name == n then true else has w n))

module _ {ℓ} {W : Type ℓ} (client : Client W) (has : W → Str → Bool) (owner : Str)
    (registers : Registers client has owner) where
  record After (names : List Str) (w : W) : Type ℓ where
    world : W
    returned : set_properties client owner names w ≡ (ok tt, world)
    there : (n : Str) → set_contains names n ≡ true → has world n ≡ true
    kept : (n : Str) → has w n ≡ true → has world n ≡ true

  set_properties-After : (names : List Str) (w : W) → After names w
  unfolding set_properties set_contains
  set_properties-After [] w = record {
    world = w;
    returned = refl;
    there = λ n h. absurd (ground arith);
    kept = λ n h. h;
  }
  set_properties-After (name ∷ names) w =
      let (v, done, added) = registers name w in
      let rest = set_properties-After names v in
      let first : (n : Str) → (name == n) ≡ true → has v n ≡ true =
        λ n same. rw (added n) (rw same refl) in
      record {
        world = rest.world;
        returned = rw (done, set_properties) rest.returned;
        there = λ n h. elim (Bool-cases (name == n)) [
          | inl same ↦ rest.kept n (first n same)
          | inr other ↦ rest.there n (ground arith)
        ];
        kept = λ n h. rest.kept n (rw (added n) (ground arith));
      }

if_true : (b x : Bool) → (b ≡ true → x ≡ true) → (if b then x else true) ≡ true
if_true true x h = h refl
if_true false x h = refl

set_minus-contains :
    (names known : List Str) (n : Str)
    → set_contains names n ≡ true
    → set_contains known n ≡ false
    → set_contains (set_minus names known) n ≡ true
unfolding set_minus set_contains
set_minus-contains [] known n h new = h
set_minus-contains (name ∷ names) known n h new =
    ground (arith, set_minus-contains names known n, str_beq_iff name n)

module _ {ℓ} {W : Type ℓ} (client : Client W) (has : W → Str → Bool) (c : CfConfig) where
  -- Where the service takes every property and the names that it reported are there, and the
  -- setting of environment variables can be read, the set-up returns, and then the service has
  -- every managed property.
  pub setup_cf_properties-Registers :
      (cf_properties : List Str) (env : Dict Str Str) (w : W)
      → Registers client has c.username
      → ((n : Str) → set_contains cf_properties n ≡ true → has w n ≡ true)
      → env_vars_of c.environment_variables ≡ ok env
      → (v : W) × (setup_cf_properties client c cf_properties w ≡ (ok (setup_from c env), v))
        × ((n : Str)
            → (if set_contains (setup_from c env).managed_properties n then has v n else true)
              ≡ true)
  unfolding setup_cf_properties register_missing
  setup_cf_properties-Registers cf_properties env w registers known e =
      let m = (setup_from c env).managed_properties in
      let after =
        set_properties-After client has c.username registers (set_minus m cf_properties) w in
      (
        after.world,
        rw (e, setup_cf_properties) (rw (after.returned, ◌and_then◌) refl),
        λ n. if_true (set_contains m n) (has after.world n) (λ h.
            elim (Bool-cases (set_contains cf_properties n)) [
              | inl old ↦ after.kept n (known n old)
              | inr new ↦ after.there n (set_minus-contains m cf_properties n h new)
            ]),
      )
