-- ===== src/Application/Addresses.antt =====
-- The addresses to announce to: their ports, and that a written list is read back.
use recsync.Prelude.{
  ℕ, ◌≡◌, ◌≢◌, ◌≤◌, refl, [], ◌∷◌, ◌++◌, ◌||◌, Bool, true, false, List, map, Str, Result, ok, err,
  arith, All, All-append, nat_beq, >>=-eq-ok, ok-injective, subst,
}
use recsync.Integer.{ℤ, pos, negsuc}
use recsync.Text.{is_space, is_digit, strip, split, partition, int, comma}
use recsync.Text.Split.{Lacks, join, split-join, strip-Lacks, partition_first}
use recsync.Text.Number.{Digits, decimal-Digits, decimal-ne, int-decimal}
use recsync.Cf.Model.{decimal}
use recsync.Application.{
  SockAddress, checked, with_port, address_of, addresses, or_broadcast, addrlist,
}

abbrev pub InRange : SockAddress → Type 0
InRange a = (1 ≤ a.1) × (a.1 ≤ 0xFFFF)

checked-InRange :
    (addr : Str) (port : Result ℤ) (a : SockAddress) → checked addr port ≡ ok a → InRange a
unfolding checked
checked-InRange addr (err e) a h = ground arith
checked-InRange addr (ok (negsuc n)) a h = ground arith
checked-InRange addr (ok (pos p)) a h = ground arith

with_port-InRange : (parts : Str × Str) (a : SockAddress) → with_port parts ≡ ok a → InRange a
unfolding with_port
with_port-InRange (addr, []) a h = ground arith
with_port-InRange (addr, c ∷ port) a h = checked-InRange addr (int (c ∷ port)) a h

address_of-InRange : (item : Str) (a : SockAddress) → address_of item ≡ ok a → InRange a
unfolding address_of
address_of-InRange item a h = with_port-InRange (partition b':' (strip is_space item)) a h

addresses-InRange :
    (items : List Str) (list : List SockAddress) → addresses items ≡ ok list → All InRange list
unfolding addresses
addresses-InRange [] list h = subst (All InRange) (ok-injective h) tt
addresses-InRange ([] ∷ items) list h = addresses-InRange items list h
addresses-InRange ((c ∷ item) ∷ items) list h =
    let (a, ea, h') = >>=-eq-ok (address_of (c ∷ item)) _ h in
    let (rest, er, h'') = >>=-eq-ok (addresses items) _ h' in
    subst (All InRange) (ok-injective h'')
      (address_of-InRange (c ∷ item) a ea, addresses-InRange items rest er)

or_broadcast-InRange :
    (list : List SockAddress)
    → All InRange list
    → All InRange (or_broadcast list) × (or_broadcast list ≢ [])
unfolding or_broadcast
or_broadcast-InRange [] h = ((omega arith, tt), λ e. cc)
or_broadcast-InRange (a ∷ list) h = (h, λ e. cc)

pub addrlist-InRange :
    (s : Str) (list : List SockAddress) → addrlist s ≡ ok list → All InRange list × (list ≢ [])
unfolding addrlist
addrlist-InRange s list h =
    let (found, e, h') = >>=-eq-ok (addresses (split comma s)) _ h in
    subst (λ l. All InRange l × (l ≢ [])) (ok-injective h')
      (or_broadcast-InRange found (addresses-InRange (split comma s) found e))

-- An address as the configuration writes it.
pub written : SockAddress → Str
written (addr, port) = addr ++ b':' ∷ decimal port

-- What the list and its addresses are cut at.
abbrev pub separates : ℕ → Bool
separates c = is_space c || nat_beq c b',' || nat_beq c b':'

pub record IsPlain (a : SockAddress) : Type 0 where
  pub host : Lacks separates a.0
  pub port : InRange a

Lacks-weaken :
    (p q : ℕ → Bool) → ((c : ℕ) → p c ≡ false → q c ≡ false) → (s : Str) → Lacks p s → Lacks q s
Lacks-weaken p q weaker [] h = tt
Lacks-weaken p q weaker (c ∷ s) h = (weaker c h.0, Lacks-weaken p q weaker s h.1)

Digits-Lacks :
    (q : ℕ → Bool) → ((c : ℕ) → is_digit c ≡ true → q c ≡ false) → (s : Str) → Digits s → Lacks q s
Digits-Lacks q misses [] h = tt
Digits-Lacks q misses (c ∷ s) h = (misses c h.0, Digits-Lacks q misses s h.1)

module _ (a : SockAddress) (plain : IsPlain a) where
  written-Lacks :
      (q : ℕ → Bool)
      → ((c : ℕ) → separates c ≡ false → q c ≡ false)
      → ((c : ℕ) → is_digit c ≡ true → q c ≡ false)
      → q b':' ≡ false
      → Lacks q (written a)
  unfolding written
  written-Lacks q weaker misses colon =
      All-append _ _ _ (Lacks-weaken separates q weaker a.0 plain.host)
        (colon, Digits-Lacks q misses (decimal a.1) (decimal-Digits a.1))

  checked-written : checked a.0 (ok (pos a.1)) ≡ ok a
  unfolding checked
  checked-written = let range : InRange a = plain.port in ground arith

  with_port-written : with_port (a.0, decimal a.1) ≡ ok a
  with_port-written = reads (decimal a.1) (decimal-ne a.1) (int-decimal a.1)
    where
      reads : (d : Str) → d ≢ [] → int d ≡ ok (pos a.1) → with_port (a.0, d) ≡ ok a
      reads [] filled e = absurd (filled refl)
      reads (c ∷ d) filled e = unfold with_port in rw e checked-written

  address_of-written : address_of (written a) ≡ ok a
  unfolding address_of written
  address_of-written =
      rw
        (strip-Lacks is_space (written a)
          (written-Lacks is_space (λ c h. ground arith) space_digit refl))
        (rw
          (partition_first b':' a.0 (decimal a.1)
            (Lacks-weaken _ _ (λ c h. ground arith) a.0 plain.host))
          with_port-written)
    where
      space_digit : (c : ℕ) → is_digit c ≡ true → is_space c ≡ false
      space_digit c h = unfold is_space in ground arith

addresses-written :
    (list : List SockAddress) → All IsPlain list → addresses (map written list) ≡ ok list
unfolding addresses written
addresses-written [] h = refl
addresses-written (([], port) ∷ list) h =
    rw (address_of-written ([], port) h.0) (rw (addresses-written list h.1) refl)
addresses-written ((c ∷ host, port) ∷ list) h =
    rw (address_of-written (c ∷ host, port) h.0) (rw (addresses-written list h.1) refl)

written-each : (list : List SockAddress) → All IsPlain list → All (Lacks comma) (map written list)
written-each [] h = tt
written-each (a ∷ list) h = (
  written-Lacks a h.0 comma (λ c e. ground arith) (λ c e. ground arith) refl,
  written-each list h.1,
)

-- A list of one or more addresses, whose hosts have no comma, colon or white space and whose ports
-- are from 1 to 65535, written as host:port and joined by commas, is read back as it was.
pub addrlist-written :
    (a : SockAddress) (list : List SockAddress)
    → All IsPlain (a ∷ list)
    → addrlist (join b',' (map written (a ∷ list))) ≡ ok (a ∷ list)
unfolding addrlist or_broadcast
addrlist-written a list h =
    rw (split-join comma b',' (written a) (map written list) refl (written-each (a ∷ list) h))
      (rw (addresses-written (a ∷ list) h) refl)
