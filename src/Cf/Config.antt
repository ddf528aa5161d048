-- ===== src/Cf/Config.antt =====
-- `CFConfig`: the options of cf/config.py that the modelled code reads.
pub mod Loads
use recsync.Prelude.{ℕ, Bool, Str}

pub record CfConfig : Type 0 where
  pub alias_enabled : Bool
  pub record_type_enabled : Bool
  pub environment_variables : Str
  pub info_tags : Str
  pub ioc_connection_info : Bool
  pub record_description_enabled : Bool
  pub clean_on_start : Bool
  pub clean_on_stop : Bool
  pub username : Str
  pub env_owner_variable : Str
  pub recceiver_id : Str
  pub cf_query_limit : ℕ
  pub push_max_retries : ℕ
  pub push_always_retry : Bool
