-- ===== src/Cf/PropertyName.antt =====
-- `PVStatus` and `CFPropertyName` of cf/model.py.
use recsync.Prelude.{Str, codes}

abbrev pub active : Str
active = codes "Active"

abbrev pub inactive : Str
inactive = codes "Inactive"

abbrev pub host_name : Str
host_name = codes "hostName"

abbrev pub ioc_name : Str
ioc_name = codes "iocName"

abbrev pub ioc_id : Str
ioc_id = codes "iocid"

abbrev pub ioc_ip : Str
ioc_ip = codes "iocIP"

abbrev pub pv_status : Str
pv_status = codes "pvStatus"

abbrev pub time : Str
time = codes "time"

abbrev pub recceiver_id : Str
recceiver_id = codes "recceiverID"

abbrev pub alias : Str
alias = codes "alias"

abbrev pub record_type : Str
record_type = codes "recordType"

abbrev pub record_desc : Str
record_desc = codes "recordDesc"

abbrev pub ca_port : Str
ca_port = codes "caPort"

abbrev pub pva_port : Str
pva_port = codes "pvaPort"
