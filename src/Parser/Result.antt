-- ===== src/Parser/Result.antt =====
-- internal/parser/parser.go: what a parse returns.
use postgres_sqlguard.Common.{List, [], Option, none, some, GoString, ascii}
use postgres_sqlguard.Parser.Node.{Node}

pub record Result : Type 0 where
  pub statements : List (Option Node)

-- `(*Result).Statements`
unfoldable pub statements : Option Result → List (Option Node)
statements none = []
statements (some r) = r.statements

abbrev pub FailureCategory : Type 0
FailureCategory = GoString

abbrev pub failure_syntax : FailureCategory
failure_syntax = ascii "syntax"

-- `Error`, without the backend's diagnostic.
pub record ParserError : Type 0 where
  pub category : FailureCategory

-- `(*Error).Category`
unfoldable pub category : Option ParserError → FailureCategory
category none = []
category (some e) = e.category

-- `(*Error).Error`
unfoldable pub parser_error_error : Option ParserError → GoString
parser_error_error e = ascii "postgresql parsing failed"
