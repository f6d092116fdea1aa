-- ===== src/Challenge.antt =====
-- aaa.c: `handle_challenge`, the response to a challenge.
use xl2tpd.Base.{ℕ, Bool, true, false, if◌then◌else◌, List, [], ◌∷◌, ◌++◌, Option, none, some}
use xl2tpd.Base.{zero, suc, take, ◌==◌}
use xl2tpd.Message.{state_challenged}
use xl2tpd.Session.{Tunnel, Challenge}
use xl2tpd.Secret.{Lookup, astray, missed, found, get_secret}
use xl2tpd.World.{Config}

-- `if (name[0])`
abbrev pub or_else : List ℕ → List ℕ → List ℕ
or_else [] other = other
or_else (b ∷ bs) other = b ∷ bs

-- The two names: those of the configured entry, else the host's and the peer's own.
unfoldable pub names : Config → Tunnel → Option (List ℕ × List ℕ)
names cfg t = elim t.lns [
  | some l ↦
      some (or_else (cfg.lns l).hostname cfg.hostname, or_else (cfg.lns l).peername t.hostname)
  | none ↦ elim t.lac [
    | some l ↦
        some (or_else (cfg.lac l).hostname cfg.hostname, or_else (cfg.lac l).peername t.hostname)
    | none ↦ none
  ]
]

-- The `chal_len` bytes of the challenge, if they can be read.
unfoldable pub challenge_bytes : ℕ → Option (List ℕ) → Option (List ℕ)
challenge_bytes len none = if len == 0 then some [] else none
challenge_bytes len (some bytes) = some (take len bytes)

-- What MD5 is made of: the state, the secret, and the challenge.
unfoldable pub digest_of : ℕ → List ℕ → List ℕ → List ℕ
digest_of ss secret bytes = ss ∷ (secret ++ bytes)

-- The response to the bytes of the challenge, by the secret.
unfoldable pub digest : Config → Challenge → List ℕ → Option (List ℕ) → Option (Bool × Challenge)
unfolding digest_of
digest cfg ch s none = none
digest cfg ch s (some bytes) = some (
  false,
  record ch {
    secret = s;
    response = cfg.env.md5 (digest_of ch.ss s bytes);
    state = state_challenged;
  },
)

unfoldable pub with_secret : Config → Challenge → Lookup → Option (Bool × Challenge)
unfolding digest challenge_bytes
with_secret cfg ch astray = none
with_secret cfg ch missed = some (true, ch)
with_secret cfg ch (found s) = digest cfg ch s (challenge_bytes ch.chal_len ch.chal)

unfoldable pub with_names :
    Config → Challenge → Option (List ℕ × List ℕ) → Option (Bool × Challenge)
unfolding with_secret
with_names cfg ch none = some (true, ch)
with_names cfg ch (some (us, them)) = with_secret cfg ch (get_secret cfg.stack cfg.authfile us them)

-- `none` is a read past the line buffer or through NULL; a result but 0 is `true`.
unfoldable pub handle_challenge : Config → Tunnel → Challenge → Option (Bool × Challenge)
unfolding names with_names
handle_challenge cfg t ch = with_names cfg ch (names cfg t)

-- `memcmp` of the two first `n` bytes; a byte that the list does not have is 0, as the arrays are
-- at first.
unfoldable pub same_bytes : ℕ → List ℕ → List ℕ → Bool
same_bytes zero xs ys = true
same_bytes (suc n) [] [] = same_bytes n [] []
same_bytes (suc n) [] (y ∷ ys) = let rest = same_bytes n [] ys in if 0 == y then rest else false
same_bytes (suc n) (x ∷ xs) [] = let rest = same_bytes n xs [] in if x == 0 then rest else false
same_bytes (suc n) (x ∷ xs) (y ∷ ys) =
    let rest = same_bytes n xs ys in if x == y then rest else false
