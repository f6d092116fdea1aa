-- ===== src/Timer/Order.antt =====
-- The order of times, and the order of the queue.
use xl2tpd.Base.{◌≡◌, arith, true, false}
use xl2tpd.Base.{List, [], ◌∷◌}
use xl2tpd.Timer.{Timeval, Entry, tv_less, tv_lesseq}

-- a is not after b.
abbrev pub NotAfter : Timeval → Timeval → Type 0
NotAfter a b = tv_less b a ≡ false

pub NotAfter-trans : (a b c : Timeval) → NotAfter a b → NotAfter b c → NotAfter a c
NotAfter-trans a b c p q = ground arith

pub NotAfter-of_less : (a b : Timeval) → tv_less a b ≡ true → NotAfter a b
NotAfter-of_less a b h = ground arith

pub NotAfter-less : (a b c : Timeval) → NotAfter a b → tv_less b c ≡ true → tv_less a c ≡ true
NotAfter-less a b c p q = ground arith

pub less-NotAfter : (a b c : Timeval) → tv_less a b ≡ true → NotAfter b c → tv_less a c ≡ true
less-NotAfter a b c p q = ground arith

pub lesseq-NotAfter : (a b : Timeval) → tv_lesseq a b ≡ true → NotAfter a b
lesseq-NotAfter a b h = ground arith

pub less_of_not_lesseq : (a b : Timeval) → tv_lesseq a b ≡ false → tv_less b a ≡ true
less_of_not_lesseq a b h = ground arith

module _ {ℓ} {A : Type ℓ} where
  -- Every entry of a queue is due at or after a time.
  abbrev pub AllFrom : Timeval → List (Entry A) → Type 0
  AllFrom a [] = Unit
  AllFrom a (p ∷ ps) = NotAfter a p.tv × AllFrom a ps

  abbrev pub AllUntil : Timeval → List (Entry A) → Type 0
  AllUntil a [] = Unit
  AllUntil a (p ∷ ps) = NotAfter p.tv a × AllUntil a ps

  -- Every entry of a queue is due after a time.
  abbrev pub AllAfter : Timeval → List (Entry A) → Type 0
  AllAfter a [] = Unit
  AllAfter a (p ∷ ps) = (tv_less a p.tv ≡ true) × AllAfter a ps

  abbrev pub IsSorted : List (Entry A) → Type 0
  IsSorted [] = Unit
  IsSorted (p ∷ ps) = AllFrom p.tv ps × IsSorted ps

  pub AllFrom-trans :
      (a b : Timeval) (ps : List (Entry A)) → NotAfter a b → AllFrom b ps → AllFrom a ps
  AllFrom-trans a b [] h all = tt
  AllFrom-trans a b (p ∷ ps) h all = (NotAfter-trans a b p.tv h all.0, AllFrom-trans a b ps h all.1)

  pub AllAfter-of_less :
      (a b : Timeval) (ps : List (Entry A)) → tv_less a b ≡ true → AllFrom b ps → AllAfter a ps
  AllAfter-of_less a b [] h all = tt
  AllAfter-of_less a b (p ∷ ps) h all =
      (less-NotAfter a b p.tv h all.0, AllAfter-of_less a b ps h all.1)
