-- ===== src/Api/Events/Columns.antt =====
-- What the columns of packages/database/eventmesh_database/models.py take at a commit: the driver or
-- the server raises for any other value.
use Prim.Native.String.{count}
use eventmesh.Base.{String, Bool, true, ◌&&◌, not, Option, none, some, ◌==◌, leb, ltb, any, codes}
use eventmesh.Base.Int.{ℤ, pos, negsuc}

-- A NUL character, which PostgreSQL stores in no text
abbrev pub has_nul : String → Bool
has_nul s = any (λ c. c == 0) (codes s)

-- `String(255)`
abbrev pub is_storable_text : String → Bool
is_storable_text s = leb (count s) 255 && not (has_nul s)

-- `BigInteger`: from -2^63 to 2^63 - 1
abbrev pub is_storable_number : ℤ → Bool
is_storable_number (pos n) = ltb n 9_223_372_036_854_775_808
is_storable_number (negsuc n) = ltb n 9_223_372_036_854_775_808

-- A column that may be NULL
abbrev pub is_storable_option {ℓ} : {A : Type ℓ} → (A → Bool) → Option A → Bool
is_storable_option p none = true
is_storable_option p (some a) = p a
