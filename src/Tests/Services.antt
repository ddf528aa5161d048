-- ===== src/Tests/Services.antt =====
-- The announcer, the controller of the processors, and the clean tool.
use recsync.Prelude.{
  ℕ, zero, suc, ◌+◌, ◌-◌, ◌≡◌, refl, ap, inl, inr, [], ◌∷◌, Bool, List, none, some, Bytes, Result,
  ok, err, protocol_error, nat_eq, length, arith, codes, if◌then◌else◌, nat_beq,
}
use recsync.Sets.{set_contains}
use recsync.Announcer.{Announcer, send_one}
use recsync.Announcer.Failing.{result_of, send_one-failing}
use recsync.Processors.{Fate, pending, ended, commit_all}
use recsync.Processors.Skipped.{one_by_one, commit_all-one_by_one, next_skipped}
use recsync.Cf.Channel.{CfChannel, ChannelDict}
use recsync.Cf.Adapter.{Client}
use recsync.Cf.Clean.{active_channels, mark_inactive}
use recsync.Cf.Clean.Swept.{Finds, Marks}
use recsync.Tests.Cf.{config}

-- Of the addresses 1 and 2 the second one fails; the world counts the packets.
abbrev announcer : Announcer ℕ
announcer = record { msg = 82 ∷ []; delay = 15; udps = 1 ∷ 2 ∷ []; udp_err = 1 ∷ []; due = none }

abbrev fails : ℕ → Bool
fails a = nat_beq a 2

abbrev send : Bytes → ℕ → ℕ → Result (Unit {0}) × ℕ
send msg a n = (result_of (fails a), n + 1)

send_one-failing_example :
    let out = send_one send 100 announcer 0 in
    (out.0 ≡ ok tt)
    × (out.1.0.due ≡ some (100 + announcer.delay))
    × (set_contains out.1.0.udp_err 1
        ≡ (if set_contains announcer.udps 1 then fails 1 else set_contains announcer.udp_err 1))
send_one-failing_example = send_one-failing send fails (λ msg a n. refl) 100 announcer 0 1

-- The processor 7 fails at once, and every other one goes on; the world lists the commits.
abbrev process : ℕ → List ℕ → Fate × List ℕ
process p log = (if nat_beq p 7 then ended (err protocol_error) else pending, p ∷ log)

commit_all-one_by_one_example :
    commit_all process (1 ∷ 2 ∷ []) []
    ≡ ((one_by_one process (1 ∷ 2 ∷ []) []).0, (1 ∷ 2 ∷ [], (one_by_one process (1 ∷ 2 ∷ []) []).1))
commit_all-one_by_one_example =
    commit_all-one_by_one process (1 ∷ 2 ∷ []) [] ((λ v. tt), ((λ v. tt), tt))

next_skipped_example :
    commit_all process (7 ∷ 1 ∷ 2 ∷ []) []
    ≡ ((7, ended (err protocol_error)) ∷ (2, pending) ∷ [], (1 ∷ 2 ∷ [], 2 ∷ 7 ∷ []))
next_skipped_example =
    next_skipped process 7 1 (2 ∷ []) [] protocol_error refl (λ e. cc) ((λ v. tt), tt)

abbrev found : ChannelDict
found = record { name = some (codes "pv"); owner = some (codes "o"); properties = none }

-- A service with some active channels, the world, that answers with one at a time.
abbrev service : Client ℕ
service = record {
  find_by_args = λ args n. (ok (elim n [ zero ↦ [] | suc m ↦ found ∷ [] ]), n);
  set_channel_dicts = λ channels n. (ok tt, n);
  update = λ prop names n. (ok tt, n - 1);
  get_all_properties = λ n. (ok [], n);
  set_property_dict = λ prop n. (ok tt, n);
}

finds : (w : ℕ) → Finds service config (λ n. n) w
unfolding active_channels
finds zero = ([], refl, omega arith, inl refl)
finds (suc m) = (_ ∷ [], refl, omega arith, inr (omega arith))

abbrev size : Result (List CfChannel) × ℕ → ℕ
size (ok chs, n) = length chs
size (err e, n) = 0

marks :
    (w : ℕ) (chs : List CfChannel)
    → active_channels service config w ≡ (ok chs, w)
    → Marks service config (λ n. n) w chs
unfolding active_channels mark_inactive
marks zero chs e = let none_found : 0 ≡ length chs = ap size e in (0 - 1, refl, omega arith)
marks (suc m) chs e = let one_found : 1 ≡ length chs = ap size e in (suc m - 1, refl, omega arith)
