-- ===== src/Send/Encode.antt =====
-- An AVP as a value, its bytes, and what the `add_` functions write.
use xl2tpd.Base.{ℕ, ◌+◌, ◌≤◌, Bool, if◌then◌else◌, List, [], ◌∷◌}
use xl2tpd.Base.{◌++◌, length, be16}

pub record Avp : Type 0 where
  pub mandatory : Bool
  pub attr : ℕ
  pub value : List ℕ

-- The first word of its header.
abbrev pub word : Avp → ℕ
word a = 6 + length a.value + (if a.mandatory then 32_768 else 0)

abbrev pub encode : Avp → List ℕ
encode a = be16 (word a) ++ (be16 0 ++ (be16 a.attr ++ a.value))

abbrev pub encode_all : List Avp → List ℕ
encode_all [] = []
encode_all (a ∷ more) = encode a ++ encode_all more

abbrev pub size_all : List Avp → ℕ
size_all [] = 0
size_all (a ∷ more) = 6 + length a.value + size_all more

-- An attribute of the table, and a length that fits the header.
abbrev pub IsFit : Avp → Type 0
IsFit a = (a.attr ≤ 39) × (6 + length a.value ≤ 1023)

abbrev pub AllFit : List Avp → Type 0
AllFit [] = Unit
AllFit (a ∷ more) = IsFit a × AllFit more
