-- ===== src/Cf/Model.antt =====
-- `IOCInfo` and `RecordInfo` of cf/model.py, and the names of channels in the processor's tables.
use recsync.Prelude.{
  ℕ, ◌+◌, ◌/◌, ◌%◌, zero, suc, ◌≡◌, ◌↔◌, [], ◌∷◌, ◌++◌, Bool, true, false, List, Option, Str, codes,
  arith, ltb, Eq, nat_beq, nat_beq_iff, str_beq, str_beq_iff, if◌then◌else◌,
}
use recsync.Integer.{ℤ}
use recsync.Cf.Property.{CfProperty}

pub record IocInfo : Type 0 where
  pub host : Str
  pub hostname : Str
  pub ioc_name : Str
  pub ioc_ip : Str
  pub owner : Str
  pub time : Str
  pub port : ℕ
  pub channelcount : ℤ

-- The decimal digits of `n`; `n` calls are enough, since each one divides by ten.
unfoldable pub decimal_from : ℕ → ℕ → Str
decimal_from zero n = (48 + n % 10) ∷ []
decimal_from (suc fuel) n =
    let rest = decimal_from fuel (n / 10) in
    if ltb n 10 then (48 + n) ∷ [] else rest ++ (48 + n % 10) ∷ []

-- str(n)
unfoldable pub decimal : ℕ → Str
unfolding decimal_from
decimal n = decimal_from n n

-- IOCInfo.id
unfoldable pub id : IocInfo → Str
unfolding decimal
id ioc = ioc.host ++ codes ":" ++ decimal ioc.port

pub record RecordInfo : Type 0 where
  pub pv_name : Str
  pub record_type : Option Str
  pub info_properties : List CfProperty
  pub aliases : List Str

-- A key of the processor's tables: the name of a channel or, where a deleted record is looked up,
-- the number of a record.
pub data Name : Type 0 where
  text : Str → Name
  number : ℕ → Name

unfoldable pub name_beq : Name → Name → Bool
name_beq (text s) (text t) = str_beq s t
name_beq (number n) (number m) = nat_beq n m
name_beq (text s) (number n) = false
name_beq (number n) (text s) = false

pub name_beq_iff : (a b : Name) → (name_beq a b ≡ true) ↔ (a ≡ b)
unfolding name_beq
name_beq_iff (text s) (text t) = ground (arith, str_beq_iff s t)
name_beq_iff (number n) (number m) = ground (arith, nat_beq_iff n m)
name_beq_iff (text s) (number n) = ground arith
name_beq_iff (number n) (text s) = ground arith

instance abbrev pub name_eq : Eq Name
name_eq = record { beq = name_beq; beq_iff = name_beq_iff }
