-- ===== src/Rule/Identifier.antt =====
-- `validRuleID` of rule.go against the grammar that its comment describes.
use postgres_sqlguard.Common.{
  ℕ, suc, ◌≤◌, ◌≡◌, refl, ◌↔◌, inl, inr, true, ◌&&◌, ◌||◌, [], ◌∷◌, GoString, length, leb, ◌==◌,
  arith, Bool-cases, ||-eq-true, ==_iff,
}
use postgres_sqlguard.Rule.{is_ascii_alpha_numeric, valid_at, valid_from, valid_rule_id}

-- A byte that is an ASCII letter or digit.
pub data IsAlphaNumeric (c : ℕ) : Type 0 where
  lower : b'a' ≤ c → c ≤ b'z' → IsAlphaNumeric c
  upper : b'A' ≤ c → c ≤ b'Z' → IsAlphaNumeric c
  digit : b'0' ≤ c → c ≤ b'9' → IsAlphaNumeric c

-- What may follow the first byte.
pub data IsFollower (c : ℕ) : Type 0 where
  alpha_numeric : IsAlphaNumeric c → IsFollower c
  dot : c ≡ b'.' → IsFollower c
  dash : c ≡ b'-' → IsFollower c
  underscore : c ≡ b'_' → IsFollower c

pub data Followers : GoString → Type 0 where
  done : Followers []
  more : {c : ℕ} {s : GoString} → IsFollower c → Followers s → Followers (c ∷ s)

-- The identifiers of the documentation: an alphanumeric byte, then followers, 64 bytes at most.
pub data IsRuleId : GoString → Type 0 where
  rule_id :
      {c : ℕ} {s : GoString}
      → IsAlphaNumeric c
      → Followers s
      → suc (length s) ≤ 64
      → IsRuleId (c ∷ s)

is_ascii_alpha_numeric-IsAlphaNumeric : (c : ℕ) → is_ascii_alpha_numeric c ≡ true → IsAlphaNumeric c
unfolding is_ascii_alpha_numeric
is_ascii_alpha_numeric-IsAlphaNumeric c h = elim (||-eq-true _ (leb b'0' c && leb c b'9') h) [
  | inl letter ↦ elim (||-eq-true (leb b'a' c && leb c b'z') _ letter) [
    | inl p ↦ lower (ground arith) (ground arith)
    | inr p ↦ upper (ground arith) (ground arith)
  ]
  | inr p ↦ digit (ground arith) (ground arith)
]

IsAlphaNumeric-is_ascii_alpha_numeric : (c : ℕ) → IsAlphaNumeric c → is_ascii_alpha_numeric c ≡ true
unfolding is_ascii_alpha_numeric
IsAlphaNumeric-is_ascii_alpha_numeric c (lower p q) = ground arith
IsAlphaNumeric-is_ascii_alpha_numeric c (upper p q) = ground arith
IsAlphaNumeric-is_ascii_alpha_numeric c (digit p q) = ground arith

separator_sound : (c : ℕ) → (c == b'.' || c == b'-' || c == b'_') ≡ true → IsFollower c
separator_sound c h = elim (||-eq-true (c == b'.' || c == b'-') _ h) [
  | inl first ↦ elim (||-eq-true (c == b'.') _ first) [
    | inl p ↦ dot ((==_iff c _).0 p)
    | inr p ↦ dash ((==_iff c _).0 p)
  ]
  | inr p ↦ underscore ((==_iff c _).0 p)
]

valid_at-IsFollower : (i c : ℕ) → valid_at (suc i) c ≡ true → IsFollower c
unfolding valid_at
valid_at-IsFollower i c h = elim (Bool-cases (is_ascii_alpha_numeric c)) [
  | inl letter ↦ alpha_numeric (is_ascii_alpha_numeric-IsAlphaNumeric c letter)
  | inr other ↦ separator_sound c (ground arith)
]

IsFollower-valid_at : (i c : ℕ) → IsFollower c → valid_at (suc i) c ≡ true
unfolding valid_at
IsFollower-valid_at i c (alpha_numeric p) = rw (IsAlphaNumeric-is_ascii_alpha_numeric c p)
IsFollower-valid_at i c (dot e) = ground arith
IsFollower-valid_at i c (dash e) = ground arith
IsFollower-valid_at i c (underscore e) = ground arith

valid_from-Followers : (i : ℕ) (s : GoString) → valid_from (suc i) s ≡ true → Followers s
unfolding valid_from
valid_from-Followers i [] h = done
valid_from-Followers i (c ∷ s) h = elim (Bool-cases (valid_at (suc i) c)) [
  | inl fits ↦ more (valid_at-IsFollower i c fits) (valid_from-Followers (suc i) s (rw fits at h))
  | inr fails ↦ cc
]

Followers-valid_from : (i : ℕ) (s : GoString) → Followers s → valid_from (suc i) s ≡ true
unfolding valid_from
Followers-valid_from i [] done = refl
Followers-valid_from i (c ∷ s) (more p rest) =
    rw (IsFollower-valid_at i c p, Followers-valid_from (suc i) s rest)

first_sound : (c : ℕ) → valid_at 0 c ≡ true → IsAlphaNumeric c
unfolding valid_at
first_sound c h = is_ascii_alpha_numeric-IsAlphaNumeric c (ground arith)

sound : (s : GoString) → valid_rule_id s ≡ true → IsRuleId s
unfolding valid_rule_id valid_from
sound [] h = cc
sound (c ∷ s) h = elim (Bool-cases (valid_at 0 c)) [
  | inl fits ↦ rule_id (first_sound c fits) (valid_from-Followers 0 s (ground arith)) (ground arith)
  | inr fails ↦ absurd (ground arith)
]

complete : (s : GoString) → IsRuleId s → valid_rule_id s ≡ true
unfolding valid_rule_id valid_from
complete [] p = elim p [ ]
complete (c ∷ s) (rule_id p rest short) =
    ground (arith, Followers-valid_from 0 s rest, IsAlphaNumeric-is_ascii_alpha_numeric c p)

-- An identifier is accepted exactly when it has 1 to 64 bytes, the first an ASCII letter or
-- digit and each other one an ASCII letter, digit, dot, dash or underscore.
pub valid_rule_id_iff : (s : GoString) → (valid_rule_id s ≡ true) ↔ IsRuleId s
valid_rule_id_iff s = (sound s, complete s)
