-- ===== src/Address/Choice.antt =====
-- Which address `get_addr` gives, and which LNS `get_lns`.
use xl2tpd.Base.{
  ap, ◌++◌, ◌∙◌, ℕ, zero, suc, ◌+◌, ◌-◌, ◌%◌, ◌^◌, ◌≤◌, ◌<◌, ◌≡◌, ◌⊎◌, inl, inr, refl, arith, Bool,
  true, false, not, ◌&&◌, if◌then◌else◌, leb, ◌==◌, List, [], ◌∷◌, Option, none, some, All,
  Bool-cases,
}
use xl2tpd.Address.{Uaddr, Iprange, ip_used, status, scan, get_addr, Lns, search, get_lns}

-- Not in use, and not taken back by a later range.
abbrev pub is_free : Uaddr → ℕ → List Iprange → Bool
is_free u x rs = not (ip_used u x) && status true x rs

abbrev pub Scanned : Uaddr → ℕ → ℕ → List Iprange → Option ℕ → Type 0
Scanned u x end rs (some y) = (x ≤ y) × (y ≤ end) × (is_free u y rs ≡ true)
Scanned u x end rs none = (y : ℕ) → x ≤ y → y ≤ end → is_free u y rs ≡ false

-- One more address in front.
Scanned-cons :
    (u : Uaddr) (x end : ℕ) (rs : List Iprange) (res : Option ℕ)
    → is_free u x rs ≡ false
    → Scanned u (x + 1) end rs res
    → Scanned u x end rs res
Scanned-cons u x end rs (some y) taken h = (omega (arith, h.0), h.1, h.2)
Scanned-cons u x end rs none taken h = λ y low high. elim (Bool-cases (y == x)) [
  | inl e ↦ ground (arith, e, taken)
  | inr e ↦ h y (ground (arith, e, low)) high
]

scan_next :
    (fuel : ℕ) (u : Uaddr) (x end : ℕ) (rs : List Iprange)
    → end < 2 ^ 32 - 1
    → leb x end ≡ true
    → is_free u x rs ≡ false
    → scan (suc fuel) u x end rs ≡ scan fuel u (x + 1) end rs
unfolding scan
scan_next fuel u x end rs bound inside taken =
    let step : (x + 1) % 2 ^ 32 ≡ x + 1 = ground (arith, inside, bound) in
    rw (scan, inside, taken, step) refl

scan_lem :
    (fuel : ℕ) (u : Uaddr) (x end : ℕ) (rs : List Iprange)
    → end < 2 ^ 32 - 1
    → end + 1 - x < fuel
    → (res : Option ℕ) × (scan fuel u x end rs ≡ some res) × Scanned u x end rs res
unfolding scan
scan_lem zero u x end rs bound enough = absurd (omega arith)
scan_lem (suc fuel) u x end rs bound enough = elim (Bool-cases (leb x end)) [
  | inr past ↦ (none, ground (arith, past), λ y low high. absurd (ground (arith, past, low, high)))
  | inl inside ↦ elim (Bool-cases (is_free u x rs)) [
    | inl free ↦ (some x, ground (arith, inside, free), (omega arith, ground (arith, inside), free))
    | inr taken ↦
        let le : x ≤ end = ground (arith, inside) in
        let (res, e, h) = scan_lem fuel u (x + 1) end rs bound (omega (arith, le)) in
        (res, scan_next fuel u x end rs bound inside taken ∙ e, Scanned-cons u x end rs res taken h)
  ]
]

-- An address that some range allows and that is free behind it; the answer of `get_addr`.
abbrev pub IsOffered : Uaddr → ℕ → List Iprange → Type 0
IsOffered u x [] = ⊥
IsOffered u x (r ∷ rs) =
    ((r.allow ≡ true) × (r.start ≤ x) × (x ≤ r.end) × (is_free u x rs ≡ true)) ⊎ IsOffered u x rs

abbrev pub IsAnswer : Uaddr → List Iprange → Option ℕ → Type 0
IsAnswer u ranges (some x) = IsOffered u x ranges
IsAnswer u ranges none = (x : ℕ) → ¬ (IsOffered u x ranges)

-- A first range that offers nothing.
IsAnswer-skip :
    (u : Uaddr) (r : Iprange) (rs : List Iprange) (res : Option ℕ)
    → ((x : ℕ) → ¬ ((r.allow ≡ true) × (r.start ≤ x) × (x ≤ r.end) × (is_free u x rs ≡ true)))
    → IsAnswer u rs res
    → IsAnswer u (r ∷ rs) res
IsAnswer-skip u r rs (some y) blocked h = inr h
IsAnswer-skip u r rs none blocked h =
    λ x o. elim o [ inl first ↦ blocked x first | inr later ↦ h x later ]

-- A first range that is allowed, after its scan.
get_addr_allowed :
    (fuel : ℕ) (u : Uaddr) (r : Iprange) (rs : List Iprange) (found res : Option ℕ)
    → r.allow ≡ true
    → scan fuel u r.start r.end rs ≡ some found
    → Scanned u r.start r.end rs found
    → get_addr fuel u rs ≡ some res
    → IsAnswer u rs res
    → (res' : Option ℕ) × (get_addr fuel u (r ∷ rs) ≡ some res') × IsAnswer u (r ∷ rs) res'
unfolding get_addr
get_addr_allowed fuel u r rs (some y) res a e h e' h' =
    (some y, rw (a, e) refl, inl (a, h.0, h.1, h.2))
get_addr_allowed fuel u r rs none res a e h e' h' =
    (res, rw (a, e) e', IsAnswer-skip u r rs res (λ x o. ground (arith, h x o.1 o.2, o.3)) h')

-- Whatever the ranges, as long as none ends at 255.255.255.255, `get_addr` ends, and a fuel of one
-- more than each range is long is enough. It gives an address of an allowed range that is not in
-- use and that the ranges behind it do not take back, and gives none only if there is none.
pub get_addr_lem :
    (fuel : ℕ) (u : Uaddr) (ranges : List Iprange)
    → All (λ r. (r.end < 2 ^ 32 - 1) × (r.end + 1 - r.start < fuel)) ranges
    → (res : Option ℕ) × (get_addr fuel u ranges ≡ some res) × IsAnswer u ranges res
unfolding get_addr
get_addr_lem fuel u [] bounds = (none, refl, λ x h. h)
get_addr_lem fuel u (r ∷ rs) bounds =
    let (res, e, h) = get_addr_lem fuel u rs bounds.1 in
    elim (Bool-cases r.allow) [
      | inl a ↦
          let (found, f, k) = scan_lem fuel u r.start r.end rs bounds.0.0 bounds.0.1 in
          get_addr_allowed fuel u r rs found res a f k e h
      | inr a ↦ (res, rw a e, IsAnswer-skip u r rs res (λ x o. ground (arith, a, o.0)) h)
    ]

-- The first of some configurations whose own list, read from a denial on, allows the peer.
abbrev pub first_listed : ℕ → List Lns → Option Lns
first_listed peer [] = none
first_listed peer (lns ∷ more) =
    let rest = first_listed peer more in if status false peer lns.lacs then some lns else rest

abbrev pub or_default : Bool → Lns → Option Lns → Option Lns
or_default accesscontrol deflns (some lns) = some lns
or_default accesscontrol deflns none = if accesscontrol then none else some deflns

search_lem :
    (peer : ℕ) (lnslist : List Lns) (deflns : Lns)
    → search false peer lnslist deflns ≡ first_listed peer (lnslist ++ (deflns ∷ []))
unfolding search
search_lem peer [] deflns = refl
search_lem peer (l ∷ more) deflns = elim (Bool-cases (status false peer l.lacs)) [
  | inl listed ↦ rw listed refl
  | inr other ↦ rw other (search_lem peer more deflns)
]

-- `get_lns` gives the first configuration whose own list allows the peer, the default being the
-- last, although it does not reset its mark from one to the next; where there is none it gives the
-- default, or nothing under access control.
pub get_lns_lem :
    (accesscontrol : Bool) (peer : ℕ) (lnslist : List Lns) (deflns : Lns)
    → get_lns accesscontrol peer lnslist deflns
      ≡ or_default accesscontrol deflns (first_listed peer (lnslist ++ (deflns ∷ [])))
unfolding get_lns
get_lns_lem accesscontrol peer lnslist deflns =
    ap (or_default accesscontrol deflns) (search_lem peer lnslist deflns)
