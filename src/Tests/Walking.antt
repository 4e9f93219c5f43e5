-- ===== src/Tests/Walking.antt =====
-- statement.go: tests and witnesses.
use postgres_sqlguard.Common.{◌≡◌, refl, [], ◌∷◌, some, ascii}
use postgres_sqlguard.Parser.Node.{Node, node, end}
use postgres_sqlguard.Statement.Walk.{walk, preorder, offer}
use postgres_sqlguard.Statement.Walk.Visits.{
  collect, before_nil, walk-offer, walk-collect, walk-collect_nil,
}
use postgres_sqlguard.Tests.Samples.{update_with, select_distinct}

walk-offer_example :
    walk (some update_with) (some collect) [] ≡ (offer collect (preorder update_with) []).1
walk-offer_example = walk-offer collect update_with []

walk-collect_example : walk (some update_with) (some collect) [] ≡ before_nil (preorder update_with)
walk-collect_example = walk-collect update_with []

abbrev target : Node
target = node (ascii "ResTarget") end

-- The target list stands behind the nil node, and is not seen.
walk-collect_nil_example : walk (some select_distinct) (some collect) [] ≡ some select_distinct ∷ []
walk-collect_nil_example =
    walk-collect_nil select_distinct (select_distinct ∷ []) (some target ∷ [])
      (unfold preorder in refl)
