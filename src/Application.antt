-- ===== src/Application.antt =====
-- `RecService` of server/recceiver/application.py: the options that it reads, and the addresses to
-- announce to. A float is of the type `F`, which `float` reads.
pub mod Addresses
use recsync.Prelude.{
  ℕ, [], ◌∷◌, ◌++◌, ◌&&◌, List, Str, codes, Result, ok, err, usage_error, ◌>>=◌, leb, if◌then◌else◌,
  str_eq,
}
use recsync.Integer.{ℤ, pos, negsuc}
use recsync.Text.{is_space, strip, split, partition, int, comma}
use recsync.Configuration.{ConfigAdapter, get_text}

abbrev pub announce_port : ℕ
announce_port = 5049

abbrev pub SockAddress : Type 0
SockAddress = Str × ℕ

-- the test of a port
unfoldable pub checked : Str → Result ℤ → Result SockAddress
checked addr (err e) = err e
checked addr (ok (negsuc n)) = err usage_error
checked addr (ok (pos port)) =
    if leb 1 port && leb port 0xFFFF then ok (addr, port) else err usage_error

unfoldable pub with_port : Str × Str → Result SockAddress
unfolding checked int
with_port (addr, []) = ok (addr, announce_port)
with_port (addr, c ∷ port) = checked addr (int (c ∷ port))

-- one address of the list
unfoldable pub address_of : Str → Result SockAddress
unfolding with_port partition strip is_space
address_of item = with_port (partition b':' (strip is_space item))

-- the loop over the items
unfoldable pub addresses : List Str → Result (List SockAddress)
unfolding address_of
addresses [] = ok []
addresses ([] ∷ items) = addresses items
addresses ((c ∷ item) ∷ items) = do
  address ← address_of (c ∷ item)
  rest ← addresses items
  ok (address ∷ rest)

unfoldable pub or_broadcast : List SockAddress → List SockAddress
or_broadcast [] = (codes "<broadcast>", announce_port) ∷ []
or_broadcast (a ∷ list) = a ∷ list

-- self.addrlist
unfoldable pub addrlist : Str → Result (List SockAddress)
unfolding addresses or_broadcast split
addrlist s = do list ← addresses (split comma s); ok (or_broadcast list)

pub record RecService (F : Type 0) : Type 0 where
  pub annperiod : F
  pub tcptimeout : F
  pub commitperiod : F
  pub commit_size_limit : ℤ
  pub max_active : ℤ
  pub bind : Str
  pub addrlist : List SockAddress
  pub port : ℤ
  pub status_interval : F
  pub metrics_port : ℤ

-- portn or "0"
unfoldable pub port_number : Str → Result ℤ
unfolding int
port_number [] = ok (pos 0)
port_number (c ∷ s) = int (c ∷ s)

module _ (F : Type 0) (float : Str → Result F) where
  -- RecService.__init__
  unfoldable pub rec_service : ConfigAdapter → Result (RecService F)
  unfolding get_text strip is_space partition port_number int
  rec_service config = do
    annperiod ← get_text config (codes "announceInterval") (codes "15.0") >>= float
    tcptimeout ← get_text config (codes "tcptimeout") (codes "15.0") >>= float
    commitperiod ← get_text config (codes "commitInterval") (codes "5.0") >>= float
    limit ← get_text config (codes "commitSizeLimit") (codes "5000") >>= int
    max_active ← get_text config (codes "maxActive") (codes "20") >>= int
    bind ← get_text config (codes "bind") []
    let (address, portn) = partition b':' (strip is_space bind)
    port ← port_number portn
    status_interval ← get_text config (codes "statusInterval") (codes "60.0") >>= float
    metrics_port ← get_text config (codes "metricsPort") (codes "0") >>= int
    list ← get_text config (codes "addrlist") []
    list ← addrlist list
    ok (record {
      annperiod = annperiod;
      tcptimeout = tcptimeout;
      commitperiod = commitperiod;
      commit_size_limit = limit;
      max_active = max_active;
      bind = address;
      addrlist = list;
      port = port;
      status_interval = status_interval;
      metrics_port = metrics_port;
    })
