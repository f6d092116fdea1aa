-- ===== src/Address.antt =====
-- aaa.c: the addresses in use, and the choice of one from the configured ranges.
--
-- An address is its value in host order, on both sides of the calls of `ntohl` and `htonl`, and
-- `uaddr` a list for each index of the hash table. `malloc` of an entry is not checked by the code
-- and is taken to succeed.
pub mod Set
pub mod Choice
mod Examples
use xl2tpd.Base.{
  ℕ, zero, suc, ◌+◌, ◌-◌, ◌%◌, ◌^◌, Bool, true, false, not, ◌&&◌, if◌then◌else◌, leb, ◌==◌,
}
use xl2tpd.Base.{List, [], ◌∷◌, Option, none, some, elem}

abbrev pub addr_hash_size : ℕ
addr_hash_size = 256

abbrev pub Uaddr : Type 0
Uaddr = ℕ → List ℕ

abbrev put : Uaddr → ℕ → List ℕ → Uaddr
put u i entries = λ j. if j == i then entries else u j

-- `init_addr`
abbrev pub init_addr : Uaddr
init_addr = λ i. []

unfoldable pub ip_used : Uaddr → ℕ → Bool
ip_used u addr = elem addr (u (addr % addr_hash_size))

unfoldable pub reserve_addr : Uaddr → ℕ → Uaddr
unfolding ip_used
reserve_addr u addr =
    let i = addr % addr_hash_size in if ip_used u addr then u else put u i (addr ∷ u i)

-- The walk of `unreserve_addr`: every entry with the address goes.
unfoldable pub without : ℕ → List ℕ → List ℕ
without addr [] = []
without addr (a ∷ entries) = let rest = without addr entries in if a == addr then rest else a ∷ rest

unfoldable pub unreserve_addr : Uaddr → ℕ → Uaddr
unfolding without
unreserve_addr u addr = let i = addr % addr_hash_size in put u i (without addr (u i))

-- `struct iprange`; `allow` is a `sense` of SENSE_ALLOW.
pub record Iprange : Type 0 where
  pub start : ℕ
  pub end : ℕ
  pub allow : Bool

abbrev pub within : ℕ → Iprange → Bool
within x r = leb r.start x && leb x r.end

-- The status after the rest of the ranges.
unfoldable pub status : Bool → ℕ → List Iprange → Bool
status now x [] = now
status now x (r ∷ rs) = status (if within x r then r.allow else now) x rs

-- The loop over a range, with `unsigned int` x; `none` where the fuel ends. Its value is what is
-- returned, or that the range has nothing.
unfoldable pub scan : ℕ → Uaddr → ℕ → ℕ → List Iprange → Option (Option ℕ)
unfolding ip_used status
scan zero u x end rs = none
scan (suc fuel) u x end rs =
    let rest = scan fuel u ((x + 1) % 2 ^ 32) end rs in
    if leb x end
    then (if not (ip_used u x) && status true x rs then some (some x) else rest)
    else some none

-- `get_addr`; the result 0 is `none` inside.
unfoldable pub get_addr : ℕ → Uaddr → List Iprange → Option (Option ℕ)
unfolding scan
get_addr fuel u [] = some none
get_addr fuel u (r ∷ rs) =
    let rest = get_addr fuel u rs in
    if r.allow
    then elim (scan fuel u r.start r.end rs) [
      | none ↦ none
      | some (some x) ↦ some (some x)
      | some none ↦ rest
    ]
    else rest

-- `struct lns`, for its `lacs`, the hosts that may connect.
pub record Lns : Type 0 where
  pub name : ℕ
  pub lacs : List Iprange

-- The loop of `get_lns`, with the default still to be checked; `allow` is kept from one to the next.
unfoldable pub search : Bool → ℕ → List Lns → Lns → Option Lns
unfolding status
search allow peer [] deflns = if status allow peer deflns.lacs then some deflns else none
search allow peer (lns ∷ more) deflns =
    let now = status allow peer lns.lacs in
    let rest = search now peer more deflns in if now then some lns else rest

unfoldable pub get_lns : Bool → ℕ → List Lns → Lns → Option Lns
unfolding search
get_lns accesscontrol peer lnslist deflns = elim (search false peer lnslist deflns) [
  | some lns ↦ some lns
  | none ↦ if accesscontrol then none else some deflns
]
