-- ===== src/Finish/Proof.antt =====
-- A tunnel that has challenged its peer: what stays so, and what a response has to be.
use xl2tpd.Base.{
  ℕ, ◌≡◌, ◌≢◌, ◌⊎◌, inl, inr, refl, ap, sym, ◌∙◌, arith, Bool, true, false, Option, none, some,
  take,
}
use xl2tpd.Base.{List}
use xl2tpd.Message.{scccn, md_sig_size}
use xl2tpd.Session.{Challenge, Tunnel}
use xl2tpd.Secret.{Lookup, astray, missed, found, get_secret}
use xl2tpd.Challenge.{names, challenge_bytes, digest_of, digest, with_secret, with_names}
use xl2tpd.Challenge.{handle_challenge, same_bytes}
use xl2tpd.World.{Config, World, Result, fault, done, AnyWorld}
use xl2tpd.Finish.Core.{SameCore, AnySome, SameSome, SameResult}

-- A digest of a secret of ours and of 16 bytes that we have drawn.
pub record IsExpected (cfg : Config) (response : List ℕ) : Type 0 where
  pub us : List ℕ
  pub them : List ℕ
  pub secret : List ℕ
  pub ss : ℕ
  pub draw : ℕ
  pub known : get_secret cfg.stack cfg.authfile us them ≡ found secret
  pub response_is :
      response ≡ cfg.env.md5 (digest_of ss secret (take md_sig_size (cfg.random draw)))

-- The challenge is none, or one of ours.
abbrev pub IsOurs : Config → Option (List ℕ) → Type 0
IsOurs cfg none = Unit
IsOurs cfg (some bytes) = (k : ℕ) × (bytes ≡ cfg.random k)

pub record IsPosed (cfg : Config) (ch : Challenge) : Type 0 where
  pub posed : ch.state ≢ 0
  pub ours : IsOurs cfg ch.chal
  pub size : ch.chal_len ≡ md_sig_size
  pub expected : IsExpected cfg ch.response

-- The peer has answered as we expect.
abbrev pub IsPassed : Challenge → Type 0
IsPassed ch = same_bytes md_sig_size ch.reply ch.response ≡ true

abbrev pub theirs : World → Challenge
theirs w = w.session.tunnel.chal_them

-- From a state `st` on, the tunnel is connected only by a peer that has passed.
abbrev pub IsGuarded : Config → ℕ → World → Type 0
IsGuarded cfg st w =
    IsPosed cfg (theirs w) × (w.session.tunnel.state ≡ scccn → (st ≡ scccn) ⊎ IsPassed (theirs w))

pub IsPosed-SameCore :
    (cfg : Config) (w w' : World) → SameCore w w' → IsPosed cfg (theirs w) → IsPosed cfg (theirs w')
IsPosed-SameCore cfg w w' same p = record {
  posed = λ e. p.posed (ground (arith, e, same));
  ours = rw same.chal p.ours;
  size = ground (arith, same, p.size);
  expected = rw same.response p.expected;
}

pub IsPassed-SameCore : (w w' : World) → SameCore w w' → IsPassed (theirs w) → IsPassed (theirs w')
IsPassed-SameCore w w' same p = rw (same.reply, same.response) p

pub IsGuarded-SameCore :
    (cfg : Config) (st : ℕ) (w w' : World)
    → SameCore w w'
    → IsGuarded cfg st w
    → IsGuarded cfg st w'
IsGuarded-SameCore cfg st w w' same (posed, safe) = (
  IsPosed-SameCore cfg w w' same posed,
  λ e. elim (safe (ground (arith, e, same))) [
    | inl old ↦ inl old
    | inr passed ↦ inr (IsPassed-SameCore w w' same passed)
  ],
)

pub IsGuarded-SameResult :
    (cfg : Config) (st : ℕ) (w : World) (r : Result)
    → SameResult w r
    → IsGuarded cfg st w
    → AnyWorld (IsGuarded cfg st) r
IsGuarded-SameResult cfg st w fault same g = tt
IsGuarded-SameResult cfg st w (done bad w') same g = IsGuarded-SameCore cfg st w w' same g

pub IsGuarded-SameSome :
    (cfg : Config) (st : ℕ) (w : World) (o : Option World)
    → SameSome w o
    → IsGuarded cfg st w
    → AnySome (IsGuarded cfg st) o
IsGuarded-SameSome cfg st w none same g = tt
IsGuarded-SameSome cfg st w (some w') same g = IsGuarded-SameCore cfg st w w' same g

-- What `handle_challenge` makes of a challenge of ours.
abbrev pub AnyHandled : Config → Challenge → Option (Bool × Challenge) → Type 0
AnyHandled cfg ch none = Unit
AnyHandled cfg ch (some (true, ch')) = ch' ≡ ch
AnyHandled cfg ch (some (false, ch')) = IsPosed cfg ch' × (ch'.reply ≡ ch.reply)

challenge_bytes-drawn :
    (cfg : Config) (chal : Option (List ℕ)) (bytes : List ℕ)
    → IsOurs cfg chal
    → challenge_bytes md_sig_size chal ≡ some bytes
    → (k : ℕ) × (bytes ≡ take md_sig_size (cfg.random k))
unfolding challenge_bytes
challenge_bytes-drawn cfg none bytes ours e = absurd (ground (arith, e))
challenge_bytes-drawn cfg (some drawn) bytes (k, ours) e =
    (k, ground (arith, e, ap (take md_sig_size) ours))

digest-AnyHandled :
    (cfg : Config) (ch : Challenge) (us them s : List ℕ) (o : Option (List ℕ))
    → get_secret cfg.stack cfg.authfile us them ≡ found s
    → IsOurs cfg ch.chal
    → ch.chal_len ≡ md_sig_size
    → challenge_bytes ch.chal_len ch.chal ≡ o
    → AnyHandled cfg ch (digest cfg ch s o)
unfolding digest
digest-AnyHandled cfg ch us them s none known ours size e = tt
digest-AnyHandled cfg ch us them s (some bytes) known ours size e =
    let (k, drawn) =
      challenge_bytes-drawn cfg ch.chal bytes ours
        (ap (λ n. challenge_bytes n ch.chal) (sym size) ∙ e) in
    (
      record {
        posed = λ z. ground (arith, z);
        ours = ours;
        size = size;
        expected = record {
          us = us;
          them = them;
          secret = s;
          ss = ch.ss;
          draw = k;
          known = known;
          response_is = ap (λ b. cfg.env.md5 (digest_of ch.ss s b)) drawn;
        };
      },
      refl,
    )

with_secret-AnyHandled :
    (cfg : Config) (ch : Challenge) (us them : List ℕ) (o : Lookup)
    → get_secret cfg.stack cfg.authfile us them ≡ o
    → IsOurs cfg ch.chal
    → ch.chal_len ≡ md_sig_size
    → AnyHandled cfg ch (with_secret cfg ch o)
unfolding with_secret
with_secret-AnyHandled cfg ch us them astray e ours size = tt
with_secret-AnyHandled cfg ch us them missed e ours size = refl
with_secret-AnyHandled cfg ch us them (found s) e ours size =
    digest-AnyHandled cfg ch us them s (challenge_bytes ch.chal_len ch.chal) e ours size refl

with_names-AnyHandled :
    (cfg : Config) (ch : Challenge) (o : Option (List ℕ × List ℕ))
    → IsOurs cfg ch.chal
    → ch.chal_len ≡ md_sig_size
    → AnyHandled cfg ch (with_names cfg ch o)
unfolding with_names
with_names-AnyHandled cfg ch none ours size = refl
with_names-AnyHandled cfg ch (some (us, them)) ours size =
    with_secret-AnyHandled cfg ch us them (get_secret cfg.stack cfg.authfile us them) refl ours size

pub handle_challenge-AnyHandled :
    (cfg : Config) (t : Tunnel) (ch : Challenge)
    → IsOurs cfg ch.chal
    → ch.chal_len ≡ md_sig_size
    → AnyHandled cfg ch (handle_challenge cfg t ch)
unfolding handle_challenge
handle_challenge-AnyHandled cfg t ch ours size =
    with_names-AnyHandled cfg ch (names cfg t) ours size
