-- ===== src/Rule.antt =====
-- rule.go: rule results and rule identifiers.
pub mod Identifier
use postgres_sqlguard.Common.{
  ℕ, zero, suc, ◌+◌, Bool, true, false, not, ◌&&◌, ◌||◌, List, [], ◌∷◌, GoString, length, ltb, leb,
  ◌==◌, if◌then◌else◌,
}

pub record RuleResult : Type 0 where
  pub allowed : Bool

-- `Allow`
unfoldable pub allow : RuleResult
allow = record { allowed = true }

-- `Reject`, the zero value.
unfoldable pub reject : RuleResult
reject = record { allowed = false }

-- `RuleResult.Rejected`
unfoldable pub rejected : RuleResult → Bool
rejected r = not r.allowed

-- `maxRuleIDLength`
abbrev pub max_rule_id_length : ℕ
max_rule_id_length = 64

-- `isASCIIAlphaNumeric`
unfoldable pub is_ascii_alpha_numeric : ℕ → Bool
is_ascii_alpha_numeric character =
    leb b'a' character && leb character b'z'
    || leb b'A' character && leb character b'Z'
    || leb b'0' character && leb character b'9'

-- The body of the loop of `validRuleID` at an index.
unfoldable pub valid_at : ℕ → ℕ → Bool
unfolding is_ascii_alpha_numeric
valid_at index character =
    if is_ascii_alpha_numeric character
    then true
    else ltb 0 index && (character == b'.' || character == b'-' || character == b'_')

-- The loop, from an index on.
unfoldable pub valid_from : ℕ → GoString → Bool
unfolding valid_at
valid_from index [] = true
valid_from index (character ∷ rest) =
    if valid_at index character then valid_from (suc index) rest else false

-- `validRuleID`
unfoldable pub valid_rule_id : GoString → Bool
unfolding valid_from
valid_rule_id rule_id =
    if length rule_id == 0 || ltb max_rule_id_length (length rule_id)
    then false
    else valid_from 0 rule_id
