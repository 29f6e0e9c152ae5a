-- ===== src/Value.antt =====
-- The dynamic values of Go's `any`, as decoding JSON or YAML gives them: token claims, tool
-- arguments, and the vocabulary of a CEL expression. A number is the text that `fmt.Sprint` gives
-- for it, since the code does nothing else with a number; the entries of an object stand in the
-- ascending key order in which `fmt.Sprint` prints a map.
use nullfield.Prelude.{
  String, Bool, true, false, List, [], ◌∷◌, Option, none, some, ◌==◌, if◌then◌else◌, join, ◌+++◌,
}

mutual
  pub data Value : Type 0 where
    null : Value
    bool : Bool → Value
    number : String → Value
    text : String → Value
    texts : List String → Value
    list : Items → Value
    object : Fields → Value

  pub data Items : Type 0 where
    nil : Items
    cons : Value → Items → Items

  pub data Fields : Type 0 where
    end : Fields
    field : String → Value → Fields → Fields

unfoldable pub lookup : String → Fields → Option Value
lookup k end = none
lookup k (field j v fs) = if j == k then some v else lookup k fs

abbrev pub entries : List (String × String) → Fields
entries [] = end
entries ((k, v) ∷ rest) = field k (text v) (entries rest)

-- `nonNilMap` of policy/cel.go
unfoldable pub non_nil_map : Option Fields → Fields
non_nil_map none = end
non_nil_map (some fs) = fs

-- `fmt.Sprint`
unfoldable mutual
  pub sprint : Value → String
  sprint null = "<nil>"
  sprint (bool true) = "true"
  sprint (bool false) = "false"
  sprint (number n) = n
  sprint (text s) = s
  sprint (texts ss) = "[" +++ join " " ss +++ "]"
  sprint (list vs) = "[" +++ join " " (sprint_items vs) +++ "]"
  sprint (object fs) = "map[" +++ join " " (sprint_fields fs) +++ "]"

  pub sprint_items : Items → List String
  sprint_items nil = []
  sprint_items (cons v vs) = sprint v ∷ sprint_items vs

  pub sprint_fields : Fields → List String
  sprint_fields end = []
  sprint_fields (field k v fs) = (k +++ ":" +++ sprint v) ∷ sprint_fields fs
