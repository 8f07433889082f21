-- ===== src/Prelude/Json.antt =====
-- The values that `json.dumps` writes, and what the program takes from the hash functions.
-- `dumps` is `json.dumps(..., sort_keys=True, default=str)` and `sha256` the hexadecimal digest of a
-- text; no law of theirs is assumed here. The theorems that need one name it.
use Prim.Native.Nat.{ℕ}
use Prim.Native.String.{String}
use mathlib.Core.Bool.{Bool}
use mathlib.Core.Option.{Option, none, some}
use package.text.Mathlib.Text.{◌==◌}
use qcg_task.Prelude.Tests.{if◌then◌else◌}
use qcg_task.Prelude.Int.{ℤ}

mutual
  pub data Json : Type 0 where
    null : Json
    flag : Bool → Json
    text : String → Json
    -- an integer that is not negative, and any integer
    count : ℕ → Json
    number : ℤ → Json
    fraction : ℤ → Json
    arr : Items → Json
    obj : Fields → Json

  pub data Items : Type 0 where
    nil : Items
    cons : Json → Items → Items

  pub data Fields : Type 0 where
    done : Fields
    field : String → Json → Fields → Fields

pub record Hashing : Type 0 where
  pub dumps : Json → String
  pub sha256 : String → String
  pub uuid5 : String → String

-- The digest of a value's canonical text.
abbrev pub json_hash : Hashing → Json → String
json_hash h v = h.sha256 (h.dumps v)

-- `d.get(k)`
unfoldable pub get_field : String → Fields → Option Json
get_field k done = none
get_field k (field j v fs) = let rest = get_field k fs in if j == k then some v else rest
