-- ===== src/Cf/Config/Loads.antt =====
-- `CFConfig.loads` of cf/config.py. A float is of the type `F`, which `float` reads; `hostname` is
-- socket.gethostname().
use recsync.Prelude.{[], Bool, true, false, Option, none, some, Str, codes, Result, ok, err, ◌>>=◌}
use recsync.Integer.{ℤ, pos}
use recsync.Configuration.{
  ConfigAdapter, parser_get, boolean_of, value_or_default, get_text, get, getboolean, getint,
}

-- CFConfig, as it is loaded: the limit of a query is a text, or the default number.
pub record LoadedConfig (F : Type 0) : Type 0 where
  pub alias_enabled : Bool
  pub record_type_enabled : Bool
  pub environment_variables : Str
  pub info_tags : Str
  pub ioc_connection_info : Bool
  pub record_description_enabled : Bool
  pub clean_on_start : Bool
  pub clean_on_stop : Bool
  pub username : Str
  pub env_owner_variable : Str
  pub recceiver_id : Str
  pub timezone : Str
  pub cf_query_limit : Option Str
  pub base_url : Option Str
  pub cf_username : Option Str
  pub cf_password : Option Str
  pub verify_ssl : Option Bool
  pub push_max_retries : ℤ
  pub push_always_retry : Bool
  pub status_interval : F

abbrev some_bool : Result Bool → Result (Option Bool)
some_bool (ok b) = ok (some b)
some_bool (err e) = err e

abbrev as_bool : Result Str → Result Bool
as_bool (ok s) = boolean_of s
as_bool (err e) = err e

-- getboolean(key), where the default is None
unfoldable pub getboolean_or_none : ConfigAdapter → Str → Result (Option Bool)
unfolding parser_get boolean_of value_or_default
getboolean_or_none a key = value_or_default none (some_bool (as_bool (parser_get a key)))

module _ (F : Type 0) (float : Str → Result F) (hostname : Str) where
  unfoldable pub loads : ConfigAdapter → Result (LoadedConfig F)
  unfolding getboolean get_text get getint getboolean_or_none
  loads conf = do
    alias_enabled ← getboolean conf (codes "alias") false
    record_type_enabled ← getboolean conf (codes "recordType") false
    environment_variables ← get_text conf (codes "environment_vars") []
    info_tags ← get_text conf (codes "infotags") []
    ioc_connection_info ← getboolean conf (codes "iocConnectionInfo") true
    record_description_enabled ← getboolean conf (codes "recordDesc") false
    clean_on_start ← getboolean conf (codes "cleanOnStart") true
    clean_on_stop ← getboolean conf (codes "cleanOnStop") true
    username ← get_text conf (codes "username") (codes "cfstore")
    env_owner_variable ← get_text conf (codes "envOwnerVariable") (codes "ENGINEER")
    recceiver_id ← get_text conf (codes "recceiverId") hostname
    timezone ← get_text conf (codes "timezone") []
    cf_query_limit ← get conf (codes "findSizeLimit")
    base_url ← get conf (codes "baseUrl")
    cf_username ← get conf (codes "cfUsername")
    cf_password ← get conf (codes "cfPassword")
    verify_ssl ← getboolean_or_none conf (codes "verifySSL")
    push_max_retries ← getint conf (codes "pushMaxRetries") (pos 10)
    push_always_retry ← getboolean conf (codes "pushAlwaysRetry") false
    status_interval ← get_text conf (codes "statusInterval") (codes "60.0") >>= float
    ok (record {
      alias_enabled = alias_enabled;
      record_type_enabled = record_type_enabled;
      environment_variables = environment_variables;
      info_tags = info_tags;
      ioc_connection_info = ioc_connection_info;
      record_description_enabled = record_description_enabled;
      clean_on_start = clean_on_start;
      clean_on_stop = clean_on_stop;
      username = username;
      env_owner_variable = env_owner_variable;
      recceiver_id = recceiver_id;
      timezone = timezone;
      cf_query_limit = cf_query_limit;
      base_url = base_url;
      cf_username = cf_username;
      cf_password = cf_password;
      verify_ssl = verify_ssl;
      push_max_retries = push_max_retries;
      push_always_retry = push_always_retry;
      status_interval = status_interval;
    })
