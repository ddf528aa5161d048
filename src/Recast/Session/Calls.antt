-- ===== src/Recast/Session/Calls.antt =====
-- The calls that a receiver makes on its session while the connection lives, as data.
use recsync.Prelude.{ℕ, List, [], ◌∷◌, Str}
use recsync.Recast.Session.{Session, done, ioc_info, add_record, add_alias, del_record, rec_info}

pub data Call : Type 0 where
  info : Str → Str → Call
  add : ℕ → Str → Str → Call
  alias : ℕ → Str → Call
  del : ℕ → Call
  rec : ℕ → Str → Str → Call
  upload_done : Call

unfoldable pub call : Call → ℕ → Session → Session
unfolding done ioc_info add_record add_alias del_record rec_info
call (info key val) now s = ioc_info key val now s
call (add id type name) now s = add_record id type name now s
call (alias id name) now s = add_alias id name now s
call (del id) now s = del_record id now s
call (rec id key val) now s = rec_info id key val now s
call upload_done now s = done s

-- Each call with its time.
unfoldable pub calls : List (Call × ℕ) → Session → Session
calls [] s = s
calls ((c, now) ∷ cs) s = calls cs (call c now s)
