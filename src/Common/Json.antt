-- ===== src/Common/Json.antt =====
-- Go's `any` as `encoding/json` decodes into it. An object's keys differ; it is an association list
-- whose values are objects again, hence a list of its own.
use Prim.Native.Nat.{ℕ}
use Prim.Native.String.{String}
use mathlib.Core.Path.{◌≡◌, refl}
use mathlib.Core.Logic.{ite}
use mathlib.Core.Bool.{Bool}
use mathlib.Core.List.{List, [], ◌∷◌}
use mathlib.Core.Option.{Option, none, some}
use native.Mathlib.Omega.{arith}
use solace_broker_mcp.Common.Tests.{key_eq}
use solace_broker_mcp.Common.Assoc.{Assoc}

-- A decimal number: the sign, the whole part and the digits after the point.
pub record Number : Type 0 where
  pub negative : Bool
  pub whole : ℕ
  pub fraction : String

mutual
  pub data Json : Type 0 where
    null : Json
    boolean : Bool → Json
    number : Number → Json
    text : String → Json
    array : Array → Json
    object : Object → Json

  pub data Array : Type 0 where
    nil : Array
    cons : Json → Array → Array

  pub data Object : Type 0 where
    end : Object
    field : String → Json → Object → Object

-- An array and an object as lists, and back.
abbrev pub items : Array → List Json
items nil = []
items (cons v a) = v ∷ items a

abbrev pub array_of : List Json → Array
array_of [] = nil
array_of (v ∷ vs) = cons v (array_of vs)

abbrev pub entries : Object → Assoc Json
entries end = []
entries (field k v o) = (k, v) ∷ entries o

abbrev pub object_of : Assoc Json → Object
object_of [] = end
object_of ((k, v) ∷ m) = field k v (object_of m)

-- `o[k]`, with nothing for a missing key.
unfoldable pub get : String → Object → Option Json
get k end = none
get k (field j v o) = ite (key_eq j k) (some v) (get k o)

unfoldable pub set : String → Json → Object → Object
set k v end = field k v end
set k v (field j w o) = ite (key_eq j k) (field k v o) (field j w (set k v o))

unfoldable pub delete : String → Object → Object
delete k end = end
delete k (field j w o) = ite (key_eq j k) o (field j w (delete k o))

pub items-array_of : (vs : List Json) → items (array_of vs) ≡ vs
items-array_of [] = refl
items-array_of (v ∷ vs) = rw (items-array_of vs)

pub get-set :
    (k j : String) (v : Json) (o : Object) → get j (set k v o) ≡ ite (key_eq k j) (some v) (get j o)
unfolding get set
get-set k j v end = refl
get-set k j v (field i w o) = ground (arith, get-set k j v o)

abbrev pub Keys : Object → Type 0
Keys end = Unit
Keys (field k v o) = (get k o ≡ none) × Keys o

pub get-delete :
    (k j : String) (o : Object) → Keys o → get j (delete k o) ≡ ite (key_eq k j) none (get j o)
unfolding get delete
get-delete k j end u = ground arith
get-delete k j (field i w o) u = ground (arith, get-delete k j o u.1)
