-- ===== src/PgxPrepared/LruCache.antt =====
-- The `simplelru`-backed cache of github.com/hashicorp/golang-lru/v2, as far as it is used.
use postgres_sqlguard.Common.{◌≡◌, ◌⊎◌, Option, none, some, GoString, ℤ}
use postgres_sqlguard.Contracts.{Prepared}

-- A cache may forget entries but never makes one up: `New` gives an empty one, a hit returns what
-- was added under the key, and a lookup adds nothing.
pub record Lru : Type 1 where
  pub Cache : Type 0
  pub new : ℤ → Option Cache
  pub get : Cache → GoString → Option Prepared × Cache
  pub add : Cache → GoString → Prepared → Cache
  pub new-empty : (n : ℤ) (c : Cache) (k : GoString) → new n ≡ some c → (get c k).0 ≡ none
  pub get-get :
      (c : Cache) (k k' : GoString) (p : Prepared)
      → (get (get c k).1 k').0 ≡ some p
      → (get c k').0 ≡ some p
  pub get-add :
      (c : Cache) (k k' : GoString) (p p' : Prepared)
      → (get (add c k p) k').0 ≡ some p'
      → ((k ≡ k') × (p ≡ p')) ⊎ ((get c k').0 ≡ some p')
