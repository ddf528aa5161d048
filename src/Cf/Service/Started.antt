-- ===== src/Cf/Service/Started.antt =====
-- What a start of the processor leaves.
use recsync.Prelude.{
  ◌≡◌, refl, ap, ◌∙◌, Bool, true, false, List, Option, none, some, Str, Error, Result, ok, err,
}
use recsync.Integer.{ℤ}
use recsync.Cf.Config.{CfConfig}
use recsync.Cf.Adapter.{Call, Client, get_property_names}
use recsync.Cf.Setup.{Setup, setup_cf_properties}
use recsync.Cf.Service.{
  Service, build_client, set_up, names_known, built, start_with_lock, released, start_service,
}

abbrev pub succeeds {ℓ} : {A : Type ℓ} → Result A → Bool
succeeds (ok _) = true
succeeds (err e) = false

abbrev pub is_there {ℓ} : {A : Type ℓ} → Option A → Bool
is_there none = false
is_there (some x) = true

-- The lock is free, the processor runs and is set up exactly if the start has succeeded, and the
-- client is there exactly if it was `built`.
pub record Begun {ℓ} {W : Type ℓ} (built : Bool) (out : Result (Unit {0}) × (Service × W))
    : Type 0 where
  pub unlocked : out.1.0.locked ≡ false
  pub runs : out.1.0.running ≡ succeeds out.0
  pub set_up : is_there out.1.0.setup ≡ succeeds out.0
  pub connected : out.1.0.has_client ≡ built

module _ {ℓ} {W : Type ℓ} (client : Client W) (construct : Call (Unit {0}) W) (limit : Option Str)
    (c : CfConfig) (status : Bool) (s : Service) where
  failed-Begun :
      (b : Bool) (e : Error) (w : W)
      → s.has_client ≡ b
      → s.setup ≡ none
      → Begun b (released client construct limit c status (err e, (s, w)))
  failed-Begun b e w there unset = record {
    unlocked = refl;
    runs = refl;
    set_up = rw unset refl;
    connected = there;
  }

  set_up-Begun :
      (r : Result Setup × W)
      → s.running ≡ true
      → s.has_client ≡ true
      → s.setup ≡ none
      → Begun true (released client construct limit c status (set_up client construct limit c s r))
  set_up-Begun (err e, w) on there unset = failed-Begun true e w there unset
  set_up-Begun (ok setup, w) on there unset = record {
    unlocked = refl;
    runs = on;
    set_up = refl;
    connected = there;
  }

  names_known-Begun :
      (r : Result (List Str) × W)
      → s.running ≡ true
      → s.has_client ≡ true
      → s.setup ≡ none
      → Begun true
          (released client construct limit c status (names_known client construct limit c s r))
  names_known-Begun (err e, w) on there unset = failed-Begun true e w there unset
  names_known-Begun (ok names, w) on there unset =
      set_up-Begun (setup_cf_properties client c names w) on there unset

module _ {ℓ} {W : Type ℓ} (client : Client W) (construct : Call (Unit {0}) W) (limit : Option Str)
    (c : CfConfig) (status : Bool) where
  built-Begun :
      (s : Service) (r : Result ℤ × W)
      → s.running ≡ true
      → s.has_client ≡ false
      → s.setup ≡ none
      → Begun
          (succeeds r.0)
          (released client construct limit c status (built client construct limit c s r))
  built-Begun s (err e, w) on new unset =
      failed-Begun client construct limit c status s false e w new unset
  built-Begun s (ok n, w) on new unset =
      names_known-Begun client construct limit c status (record s { has_client = true })
        (get_property_names client w) on refl unset

  -- A start that finds the lock free and has no client yet leaves the lock free, and a client
  -- exactly if it could be built, and the processor runs and is set up exactly if the start has
  -- succeeded.
  pub start_service-Begun :
      (s : Service) (w : W)
      → s.locked ≡ false
      → s.has_client ≡ false
      → s.setup ≡ none
      → Begun
          (succeeds (build_client client construct limit c w).0)
          (start_service client construct limit c status s w)
  unfolding start_service start_with_lock
  start_service-Begun s w free new unset = rw free (
      rw new (
        built-Begun (record s { running = true; locked = true; has_client = false })
          (build_client client construct limit c w) refl refl unset))

  connected_again :
      (s : Service) (v : W)
      → s.locked ≡ false
      → s.has_client ≡ true
      → is_there s.setup ≡ false
      → let again = start_service client construct limit c status s v in
        (again.0 ≡ ok tt) × (again.1.0.running ≡ true) × (is_there again.1.0.setup ≡ false)
  unfolding start_service start_with_lock
  connected_again s v free there unset = rw free (rw there (refl, refl, unset))

  pub restart_skips_setup :
      (s : Service) (w v : W) (e : Error)
      → s.locked ≡ false
      → s.has_client ≡ false
      → s.setup ≡ none
      → succeeds (build_client client construct limit c w).0 ≡ true
      → (start_service client construct limit c status s w).0 ≡ err e
      → let again =
          start_service client construct limit c status
            (start_service client construct limit c status s w).1.0
            v in
        (again.0 ≡ ok tt) × (again.1.0.running ≡ true) × (is_there again.1.0.setup ≡ false)
  restart_skips_setup s w v e free new unset made failed =
      let b = start_service-Begun s w free new unset in
      connected_again (start_service client construct limit c status s w).1.0 v b.unlocked
        (b.connected ∙ made) (b.set_up ∙ ap succeeds failed)
