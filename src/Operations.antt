-- ===== src/Operations.antt =====
-- pkg/operations/operations.go: names for what a call does to an integration. Reading the files is
-- not modelled; the maps that were loaded are an argument. What the source calls of `net`,
-- `net/url` and `strconv`, and `strings.ToLower`, are the fields of `Library`.
pub mod Templates
pub mod Names
use nullfield.Prelude.{
  ℕ, suc, String, Bool, true, false, not, ◌&&◌, ◌||◌, List, [], ◌∷◌, Option, none, some, ◌==◌,
  if◌then◌else◌, ltb, leb, any, length, is_some, is_empty, is_prefix, contains, equal_fold, ◌+++◌,
  Result, ok, err, same_code, split_on, cut, text_tail, without_last, or_else,
}
use nullfield.Prelude.Dict
use nullfield.Prelude.Dict.{Dict}

-- What the source calls: `net.SplitHostPort` (the host, if there is no error), `strings.ToLower`,
-- `url.PathUnescape` (the text, if there is no error) and the verb `%q`.
pub record Library : Type 0 where
  pub split_host_port : String → Option String
  pub to_lower : String → String
  pub path_unescape : String → Option String
  pub quote : String → String

-- `Operation`
pub record Operation : Type 0 where
  pub name : String
  pub method : String
  pub path : String

-- `Map`
pub record OperationMap : Type 0 where
  pub targets : Dict (List Operation)

abbrev pub is_dots : String → Bool
is_dots s = s == "." || s == ".."

-- `split`
unfoldable pub split : String → Option (List String)
unfolding split_on is_prefix text_tail
split path =
    if not (is_prefix "/" path)
    then none
    else if path == "/"
    then some []
    else let segs = split_on b'/' (text_tail path) in
      if any (λ s. s == "" || is_dots s) segs then none else some segs

-- `param`
unfoldable pub param : String → Option String
unfolding is_prefix text_tail without_last
param seg = if is_prefix "{" seg then without_last b'}' (text_tail seg) else none

-- The loop of `match`
unfoldable pub bind : List String → List String → Dict String → Option (Dict String)
bind [] segs params = some params
bind (t ∷ tmpl) [] params = some params
bind (t ∷ tmpl) (s ∷ segs) params = elim (param t) [
  | some p ↦ bind tmpl segs (Dict.put p s params)
  | none ↦ let rest = bind tmpl segs params in if t == s then rest else none
]

abbrev pub template : Operation → List String
template op = elim (split op.path) [ none ↦ [] | some tmpl ↦ tmpl ]

-- `match`
unfoldable pub match_op : Operation → String → List String → Option (Dict String)
unfolding bind equal_fold
match_op op method segs =
    if not (equal_fold method op.method)
    then none
    else if not (same_code (length (template op)) (length segs))
    then none
    else bind (template op) segs []

-- The loop of `validate`, with the parameters seen so far
unfoldable pub names_once : List String → List String → Bool
names_once [] seen = true
names_once (s ∷ segs) seen = elim (param s) [
  | none ↦ names_once segs seen
  | some p ↦
      let rest = names_once segs (p ∷ seen) in
      if p == "" || any (λ q. q == p) seen then false else rest
]

-- The loop of `Resolve` over the operations
unfoldable pub first_match : List Operation → String → List String → String × Option (Dict String)
unfolding match_op
first_match [] method segs = ("", none)
first_match (op ∷ ops) method segs = elim (match_op op method segs) [
  | some params ↦ (op.name, some params)
  | none ↦ first_match ops method segs
]

module _ (lib : Library) where
  -- `validate`
  unfoldable pub validate : Operation → Result (Unit {0})
  unfolding split names_once
  validate op =
      if op.name == "" || op.method == ""
      then err "name and method are required"
      else elim (split op.path) [
        | none ↦
            err
              ("path " +++ lib.quote op.path +++ " must be absolute with no empty or dot segments")
        | some segs ↦
            if names_once segs []
            then ok tt
            else err ("path " +++ lib.quote op.path +++ ": parameters must be named once each")
      ]

  -- `host`
  unfoldable pub host : String → String
  unfolding without_last
  host target =
      let lower = lib.to_lower (or_else (lib.split_host_port target) target) in
      or_else (without_last b'.' lower) lower

  -- The loop of `Resolve` over the segments; `none` is `ErrAmbiguous`.
  unfoldable pub unescape_all : List String → Option (List String)
  unfolding contains
  unescape_all [] = some []
  unescape_all (s ∷ raw) =
      let rest = unescape_all raw in
      elim (lib.path_unescape s) [
        | none ↦ none
        | some d ↦
            if is_dots d || contains d "/"
            then none
            else elim rest [ none ↦ none | some segs ↦ some (d ∷ segs) ]
      ]

  -- `Resolve`, with the name and the parameters; `none` is `ErrAmbiguous`.
  unfoldable pub resolve : OperationMap → String → String → Option (String × Option (Dict String))
  unfolding host cut split unescape_all first_match
  resolve m target operation = elim (Dict.lookup (host target) m.targets) [
    | none ↦ some ("", none)
    | some ops ↦
        let (method, rest) = cut b' ' operation in
        elim (split (cut b'?' rest).0) [
          | none ↦ none
          | some raw ↦ elim (unescape_all raw) [
            | none ↦ none
            | some segs ↦ some (first_match ops method segs)
          ]
        ]
  ]
