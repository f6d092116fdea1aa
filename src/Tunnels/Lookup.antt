-- ===== src/Tunnels/Lookup.antt =====
-- Which call `get_call` (call.c) finds.
use xl2tpd.Base.{ℕ, zero, suc, ◌<◌, ◌≡◌, ◌≢◌, refl, sym, ap, ◌∙◌, ◌↔◌, arith, true, false}
use xl2tpd.Base.{
  List, [], ◌∷◌, Option, none, some, inl, inr, get_elem?, ◌==◌, Bool-cases, ==→eq, ==→ne, ◌⊎◌,
}
use mathlib.Core.Option.{some-injective}
use mathlib.Core.Path.{subst}
use xl2tpd.Session.{Session}
use xl2tpd.World.{Config}
use xl2tpd.Tunnels.{serves, find_call, call_in, Found, missing, existing, made, further, found_in}
use xl2tpd.Tunnels.{find_tunnel, get_call}

module _ (st : Session) (call : ℕ) where
  -- The first call of a list that has the number.
  pub data Owner : List ℕ → ℕ → Type 0 where
    front : {sc : ℕ} {calls : List ℕ} → (st.calls sc).ourcid ≡ call → Owner (sc ∷ calls) sc
    behind :
        {sc a : ℕ} {calls : List ℕ}
        → (st.calls sc).ourcid ≢ call
        → Owner calls a
        → Owner (sc ∷ calls) a

  -- The tunnel's own call for the number 0, else the first of its calls with the number.
  abbrev pub IsOwned : ℕ → Type 0
  IsOwned a = ((call ≡ 0) × (a ≡ st.tunnel.self)) ⊎ ((call ≢ 0) × Owner st.tunnel.call_head a)

  find_call-Owner : (calls : List ℕ) (a : ℕ) → find_call st call calls ≡ some a → Owner calls a
  unfolding find_call
  find_call-Owner [] a e = ground (arith, e)
  find_call-Owner (sc ∷ calls) a e = elim (Bool-cases ((st.calls sc).ourcid == call)) [
    | inl same ↦
        subst (λ (x : ℕ). Owner (sc ∷ calls) x) (ground (arith, same, e))
          (front (==→eq (st.calls sc).ourcid call same))
    | inr other ↦
        behind (==→ne (st.calls sc).ourcid call other)
          (find_call-Owner calls a (ground (arith, other, e)))
  ]

  owner_found : {calls : List ℕ} {a : ℕ} → Owner calls a → find_call st call calls ≡ some a
  unfolding find_call
  owner_found (front same) = ground (arith, same)
  owner_found (behind other o) = ground (arith, other, owner_found o)

  call_in-IsOwned : (a : ℕ) → call_in st call ≡ some a → IsOwned a
  unfolding call_in
  call_in-IsOwned a e = elim (Bool-cases (call == 0)) [
    | inl own ↦ inl (==→eq call 0 own, ground (arith, own, e))
    | inr other ↦
        inr (==→ne call 0 other, find_call-Owner st.tunnel.call_head a (ground (arith, other, e)))
  ]

  owned_call_in : (a : ℕ) → IsOwned a → call_in st call ≡ some a
  unfolding call_in
  owned_call_in a (inl (z, same)) = ground (arith, z, same)
  owned_call_in a (inr (other, o)) = ground (arith, other, owner_found o)

module _ (cfg : Config) (tunnel call refhim : ℕ) where
  -- No tunnel before `i` serves the packet.
  abbrev pub IsFirst : List Session → ℕ → Type 0
  IsFirst ts i =
      (j : ℕ) (st' : Session)
      → j < i
      → get_elem? ts j ≡ some st'
      → serves cfg tunnel refhim st' ≡ false

  -- The first tunnel of the list that serves the packet is at `i`, and has the call at `a`.
  pub record Reached (ts : List Session) (i a : ℕ) : Type 0 where
    pub st : Session
    pub place : get_elem? ts i ≡ some st
    pub serving : serves cfg tunnel refhim st ≡ true
    pub first : IsFirst ts i
    pub owned : IsOwned st call a

-- What the results of the two steps of the walk come from.
found_in-existing : (o : Option ℕ) (i a : ℕ) → found_in o ≡ existing i a → (i ≡ 0) × (o ≡ some a)
found_in-existing none i a e = ground (arith, e)
found_in-existing (some b) i a e = ground (arith, e)

further-zero : (f : Found) (a : ℕ) → further f ≢ existing 0 a
further-zero missing a = λ e. ground (arith, e)
further-zero (existing j b) a = λ e. ground (arith, e)
further-zero (made s) a = λ e. ground (arith, e)

further-suc : (f : Found) (i a : ℕ) → further f ≡ existing (suc i) a → f ≡ existing i a
further-suc missing i a e = ground (arith, e)
further-suc (existing j b) i a e = ground (arith, e)
further-suc (made s) i a e = ground (arith, e)

module _ (cfg : Config) (tunnel call refhim : ℕ) where
  abbrev Firsts : List Session → ℕ → Type 0
  Firsts ts i = IsFirst cfg tunnel call refhim ts i

  abbrev Walks : List Session → ℕ → ℕ → Type 0
  Walks ts i a = find_tunnel cfg ts tunnel call refhim ≡ existing i a

  abbrev Reaches : List Session → ℕ → ℕ → Type 0
  Reaches ts i a = Reached cfg tunnel call refhim ts i a

  walk-served :
      (st : Session) (ts : List Session)
      → serves cfg tunnel refhim st ≡ true
      → find_tunnel cfg (st ∷ ts) tunnel call refhim ≡ found_in (call_in st call)
  unfolding find_tunnel
  walk-served st ts served = rw served refl

  walk-passed :
      (st : Session) (ts : List Session)
      → serves cfg tunnel refhim st ≡ false
      → find_tunnel cfg (st ∷ ts) tunnel call refhim
        ≡ further (find_tunnel cfg ts tunnel call refhim)
  unfolding find_tunnel
  walk-passed st ts passed = rw passed refl

  served-Reached :
      (st : Session) (ts : List Session) (i a : ℕ)
      → serves cfg tunnel refhim st ≡ true
      → (i ≡ 0) × (call_in st call ≡ some a)
      → Reaches (st ∷ ts) i a
  served-Reached st ts zero a served (z, o) = record {
    st = st;
    place = refl;
    serving = served;
    first = λ j st' less place. ground (arith, less);
    owned = call_in-IsOwned st call a o;
  }
  served-Reached st ts (suc i) a served (z, o) = ground (arith, z)

  first-passed :
      (st : Session) (ts : List Session) (i : ℕ)
      → serves cfg tunnel refhim st ≡ false
      → Firsts ts i
      → Firsts (st ∷ ts) (suc i)
  first-passed st ts i passed before zero st' less place =
      subst (λ (x : Session). serves cfg tunnel refhim x ≡ false) (some-injective st st' place)
        passed
  first-passed st ts i passed before (suc j) st' less place =
      before j st' (omega (arith, less)) place

  passed-Reached :
      (st : Session) (ts : List Session) (i a : ℕ)
      → serves cfg tunnel refhim st ≡ false
      → Reaches ts i a
      → Reaches (st ∷ ts) (suc i) a
  passed-Reached st ts i a passed r = record {
    st = r.st;
    place = r.place;
    serving = r.serving;
    first = first-passed st ts i passed r.first;
    owned = r.owned;
  }

  walk-Reached : (ts : List Session) (i a : ℕ) → Walks ts i a → Reaches ts i a
  unfolding find_tunnel
  walk-Reached [] i a e = ground (arith, e)
  walk-Reached (st ∷ ts) zero a e = elim (Bool-cases (serves cfg tunnel refhim st)) [
    | inl served ↦
        served-Reached st ts 0 a served
          (found_in-existing (call_in st call) 0 a (sym (walk-served st ts served) ∙ e))
    | inr passed ↦ ground (
      arith,
      further-zero (find_tunnel cfg ts tunnel call refhim) a,
      sym (walk-passed st ts passed) ∙ e,
    )
  ]
  walk-Reached (st ∷ ts) (suc i) a e = elim (Bool-cases (serves cfg tunnel refhim st)) [
    | inl served ↦
        served-Reached st ts (suc i) a served
          (found_in-existing (call_in st call) (suc i) a (sym (walk-served st ts served) ∙ e))
    | inr passed ↦ passed-Reached st ts i a passed (
        walk-Reached ts i a (
          further-suc (find_tunnel cfg ts tunnel call refhim) i a
            (sym (walk-passed st ts passed) ∙ e)))
  ]

  reached_walk : (ts : List Session) (i a : ℕ) → Reaches ts i a → Walks ts i a
  reached_walk [] i a r = ground (arith, r.place)
  reached_walk (st ∷ ts) zero a r =
      let here : r.st ≡ st = sym (some-injective st r.st r.place) in
      walk-served st ts (ap (serves cfg tunnel refhim) (sym here) ∙ r.serving)
      ∙ ap found_in
          (ap (λ (x : Session). call_in x call) (sym here) ∙ owned_call_in r.st call a r.owned)
  reached_walk (st ∷ ts) (suc i) a r =
      walk-passed st ts (r.first 0 st (omega arith) refl)
      ∙ ap further (
          reached_walk ts i a (record {
            st = r.st;
            place = r.place;
            serving = r.serving;
            first = λ j st' less place. r.first (suc j) st' (omega (arith, less)) place;
            owned = r.owned;
          }))

  -- A packet with a tunnel number other than 0 is given to a call exactly if the first tunnel of the
  -- list that has this number, and is not of another security association, has that call: its own
  -- one for the number 0, else the first of its calls with the number. Who sends it does not matter.
  pub get_call_lem :
      (ts : List Session) (addr i a : ℕ)
      → tunnel ≢ 0
      → (get_call cfg ts tunnel call addr refhim ≡ existing i a) ↔ Reaches ts i a
  unfolding get_call
  get_call_lem ts addr i a some_tunnel =
      let numbered : get_call cfg ts tunnel call addr refhim
          ≡ find_tunnel cfg ts tunnel call refhim =
        ground (arith, some_tunnel) in
      (λ e. walk-Reached ts i a (sym numbered ∙ e), λ r. numbered ∙ reached_walk ts i a r)
