-- ===== src/CheckValid/Address.antt =====
-- IPv4 addresses described by the values of their octets.
pub mod Octets
pub mod Found
use compass4nfv.Base.{ℕ, ◌+◌, ◌*◌, ◌-◌, ◌≤◌, ◌≡◌, ◌⊎◌, [], ◌∷◌, ◌++◌, Text, All, length}
use compass4nfv.Regex.Laws.{IsEnd}

abbrev pub IsDigit : ℕ → Type 0
IsDigit c = (48 ≤ c) × (c ≤ 57)

-- The number that digits are, after those of another number.
abbrev value_after : ℕ → Text → ℕ
value_after n [] = n
value_after n (c ∷ s) = value_after (n * 10 + (c - 48)) s

abbrev pub value : Text → ℕ
value s = value_after 0 s

-- One to three digits, for a number up to 255.
abbrev pub IsFirst : Text → Type 0
IsFirst s = All IsDigit s × (1 ≤ length s) × (length s ≤ 3) × (value s ≤ 255)

-- The same without a zero in front of two digits.
abbrev pub IsOctet : Text → Type 0
IsOctet s = IsFirst s × (length s ≡ 3 → 100 ≤ value s)

-- One or two digits, for a number up to 32, without a zero in front of a digit.
abbrev pub IsPrefix : Text → Type 0
IsPrefix s =
    All IsDigit s × (1 ≤ length s) × (length s ≤ 2) × (value s ≤ 32) × (length s ≡ 2 → 10 ≤ value s)

-- Four octets with dots between them, a prefix length after a slash or none, and what `$` allows.
pub record IsAddress (s : Text) : Type 0 where
  pub a : Text
  pub b : Text
  pub c : Text
  pub d : Text
  pub mask : Text
  pub rest : Text
  pub octets : IsFirst a × IsOctet b × IsOctet c × IsOctet d
  pub masked : (mask ≡ []) ⊎ ((p : Text) × (mask ≡ b'/' ∷ p) × IsPrefix p)
  pub ends : IsEnd rest
  pub whole : s ≡ a ++ (b'.' ∷ b ++ (b'.' ∷ c ++ (b'.' ∷ d ++ (mask ++ rest))))
