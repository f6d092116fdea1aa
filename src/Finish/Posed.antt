-- ===== src/Finish/Posed.antt =====
-- An SCCRQ from a peer that has to prove who it is: the challenge is posed.
use xl2tpd.Base.{◌≡◌, ◌⊎◌, true, false}
use xl2tpd.Session.{Challenge, cur}
use xl2tpd.World.{Config, World, Result, fault, done}
use xl2tpd.Finish.Proof.{IsPosed, theirs}

-- What holds of the state where the result is 0.
abbrev pub Good : (World → Type 0) → Result → Type 0
Good P fault = Unit
Good P (done true w) = Unit
Good P (done false w) = P w

module _ (cfg : Config) where
  abbrev Poses : Result → Type 0
  Poses r = Good (λ w. IsPosed cfg (theirs w)) r

  -- Posed, or a duplicate that is closed.
  abbrev PosesOrCloses : Result → Type 0
  PosesOrCloses r = Good (λ w. IsPosed cfg (theirs w) ⊎ ((cur w.session).closing ≡ true)) r
