-- ===== src/SqlState/Laws.antt =====
-- Every state has the five characters that SQL prescribes.
use pdo_4d.Base.{
  ℕ, Bool, true, ◌&&◌, ◌≡◌, refl, List, [], ◌∷◌, codes, length, ℤ, pos, negsuc, arith, ◌==◌,
}
use Prim.Native.String.{String}
use pdo_4d.Connection.{Fourd}
use pdo_4d.SqlState.{sqlstates, lookup, sqlstate_of, fourd_sqlstate}

all_five : List (ℕ × String) → Bool
all_five [] = true
all_five ((c, state) ∷ rest) = length (codes state) == 5 && all_five rest

sqlstates-all_five : all_five sqlstates ≡ true
unfolding all_five
sqlstates-all_five = refl

lookup-length :
    (code : ℕ) (table : List (ℕ × String)) → all_five table ≡ true → length (lookup code table) ≡ 5
unfolding lookup all_five
lookup-length code [] h = refl
lookup-length code ((c, state) ∷ rest) h = ground (arith, lookup-length code rest)

length-sqlstate_of : (code : ℤ) → length (sqlstate_of code) ≡ 5
unfolding sqlstate_of
length-sqlstate_of (pos n) = lookup-length n sqlstates sqlstates-all_five
length-sqlstate_of (negsuc n) = ground arith

-- Whatever the error code of the connection, its SQLSTATE has exactly five characters.
pub length-fourd_sqlstate : (cnx : Fourd) → length (fourd_sqlstate cnx) ≡ 5
unfolding fourd_sqlstate
length-fourd_sqlstate cnx = length-sqlstate_of cnx.error_code
