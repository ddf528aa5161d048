-- ===== src/Recast/Transaction.antt =====
-- `Transaction`: what one commit carries.
use recsync.Prelude.{ℕ, [], Bool, true, false, List, Str}
use recsync.Dict.{Dict}

-- An IAddress: the peer of a connection.
pub record Address : Type 0 where
  pub host : Str
  pub port : ℕ

pub record Transaction : Type 0 where
  pub source_address : Address
  pub connected : Bool
  pub initial : Bool
  pub srcid : ℕ
  -- id to name and type
  pub records_to_add : Dict ℕ (Str × Str)
  pub client_infos : Dict Str Str
  pub record_infos_to_add : Dict ℕ (Dict Str Str)
  pub aliases : Dict ℕ (List Str)
  pub records_to_delete : List ℕ

-- Transaction.__init__
unfoldable pub new_transaction : Address → ℕ → Transaction
new_transaction ep id = record {
  source_address = ep;
  connected = true;
  initial = false;
  srcid = id;
  records_to_add = [];
  client_infos = [];
  record_infos_to_add = [];
  aliases = [];
  records_to_delete = [];
}
