-- ===== src/Errors.antt =====
-- errors.go: the error values of the package, and the translation of parser failures.
use postgres_sqlguard.Common.{
  ℕ, [], ◌++◌, Option, none, some, GoString, ascii, str_eq, if◌then◌else◌,
}
use postgres_sqlguard.Parser.Result.{ParserError, parser_error_error, category, failure_syntax}

abbrev pub parse_error_unknown : GoString
parse_error_unknown = ascii "unknown"

abbrev pub parse_error_syntax : GoString
parse_error_syntax = ascii "syntax"

pub record Violation : Type 0 where
  pub rule_id : GoString

pub record ParseError : Type 0 where
  pub category : GoString

-- Values of Go's `error` interface, nil apart. A pointer in an interface may be nil. `foreign`
-- stands for errors of other packages that wrap nothing of this one.
pub data GoError : Type 0 where
  errors_new : GoString → GoError
  duplicate_rule : GoString → GoError
  violation : Option Violation → GoError
  parse_error : Option ParseError → GoError
  parser_error : Option ParserError → GoError
  wrapped : GoString → GoError → GoError
  foreign : ℕ → GoError

-- `ErrInvalidPrepared`
abbrev pub err_invalid_prepared : GoError
err_invalid_prepared = errors_new (ascii "sqlguard: invalid prepared value")

abbrev pub violation_message : GoString
violation_message = ascii "sql validation rejected by rule"

abbrev pub parse_error_message : GoString
parse_error_message = ascii "sql validation parsing failed"

-- `(*Violation).Error` and `(*ParseError).Error`
unfoldable pub violation_error : Option Violation → GoString
violation_error v = violation_message

unfoldable pub parse_error_error : Option ParseError → GoString
parse_error_error e = parse_error_message

-- `Error()` of an error value, given the texts of errors of other packages.
unfoldable pub error_text : (ℕ → GoString) → GoError → GoString
unfolding violation_error parse_error_error
error_text text (errors_new message) = message
error_text text (duplicate_rule id) = ascii "sqlguard: duplicate rule identifier: " ++ id
error_text text (violation v) = violation_error v
error_text text (parse_error e) = parse_error_error e
error_text text (parser_error e) = parser_error_error e
error_text text (wrapped message e) = message ++ ascii ": " ++ error_text text e
error_text text (foreign n) = text n

-- `newViolation`
unfoldable pub new_violation : GoString → GoError
new_violation id = violation (some (record { rule_id = id }))

-- `(*Violation).RuleID`
unfoldable pub violation_rule_id : Option Violation → GoString
violation_rule_id none = []
violation_rule_id (some v) = v.rule_id

-- `newParseError`
unfoldable pub new_parse_error : GoString → GoError
new_parse_error c = parse_error (some (record { category = c }))

-- `(*ParseError).Category`
unfoldable pub parse_error_category : Option ParseError → GoString
parse_error_category none = []
parse_error_category (some e) = e.category

-- `errors.As` to a `*parser.Error`: the first one on the chain of wrapped errors.
unfoldable pub as_parser_error : GoError → Option (Option ParserError)
as_parser_error (parser_error e) = some e
as_parser_error (wrapped message e) = as_parser_error e
as_parser_error _ = none

-- `errors.As` to a `*Violation`.
unfoldable pub as_violation : GoError → Option (Option Violation)
as_violation (violation v) = some v
as_violation (wrapped message e) = as_violation e
as_violation _ = none

-- The category that `translateParserError` chooses.
unfoldable pub translated_category : Option (Option ParserError) → GoString
translated_category none = parse_error_unknown
translated_category (some e) =
    if str_eq (category e) failure_syntax then parse_error_syntax else parse_error_unknown

-- `translateParserError`
unfoldable pub translate_parser_error : Option GoError → Option GoError
unfolding translated_category as_parser_error new_parse_error
translate_parser_error none = none
translate_parser_error (some source) =
    some (new_parse_error (translated_category (as_parser_error source)))
