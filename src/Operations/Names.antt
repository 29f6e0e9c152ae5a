-- ===== src/Operations/Names.antt =====
-- What `Resolve` of pkg/operations/operations.go names.
use mathlib.Core.Option.{some-injective}
use mathlib.Core.Path.{subst}
use nullfield.Prelude.{
  cut, ◌≡◌, sym, ◌∙◌, inl, inr, String, false, List, [], ◌∷◌, none, some, arith, contains,
  Option-cases, All,
}
use nullfield.Prelude.Dict.{Dict, lookup}
use nullfield.Operations.{
  Library, Operation, OperationMap, split, is_dots, match_op, first_match, host, unescape_all,
  resolve,
}

-- A segment that is neither a dot segment nor several segments once it is decoded.
abbrev pub IsPlain : String → Type 0
IsPlain d = (is_dots d ≡ false) × (contains d "/" ≡ false)

unescape_all-cons :
    (lib : Library) (s : String) (raw segs : List String)
    → unescape_all lib (s ∷ raw) ≡ some segs
    → (d : String) × (rest : List String) × (segs ≡ d ∷ rest)
      × IsPlain d
      × (unescape_all lib raw ≡ some rest)
unfolding unescape_all
unescape_all-cons lib s raw segs e = elim (Option-cases (lib.path_unescape s)) [
  | inl bad ↦ absurd (ground arith)
  | inr (d, good) ↦ elim (Option-cases (unescape_all lib raw)) [
    | inl bad ↦ absurd (ground arith)
    | inr (rest, run) ↦ (d, rest, ground arith, (ground arith, ground arith), run)
  ]
]

unescape_all-IsPlain :
    (lib : Library) (raw segs : List String) → unescape_all lib raw ≡ some segs → All IsPlain segs
unfolding unescape_all
unescape_all-IsPlain lib [] segs e = subst (All IsPlain) (some-injective [] segs e) tt
unescape_all-IsPlain lib (s ∷ raw) segs e =
    let (d, rest, split, plain, run) = unescape_all-cons lib s raw segs e in
    subst (All IsPlain) (sym split) (plain, unescape_all-IsPlain lib raw rest run)

-- The operation is the first of the list to match the call, with these parameters.
pub data First (method : String) (segs : List String) (op : Operation) (params : Dict String)
    : List Operation → Type 0 where
  here :
      {ops : List Operation}
      → match_op op method segs ≡ some params
      → First method segs op params (op ∷ ops)
  there :
      {other : Operation} {ops : List Operation}
      → match_op other method segs ≡ none
      → First method segs op params ops
      → First method segs op params (other ∷ ops)

first_match-First :
    (ops : List Operation) (method : String) (segs : List String) (name : String)
    (params : Dict String)
    → first_match ops method segs ≡ (name, some params)
    → (op : Operation) × (op.name ≡ name) × First method segs op params ops
unfolding first_match
first_match-First [] method segs name params e = absurd (ground arith)
first_match-First (op ∷ ops) method segs name params e =
    elim (Option-cases (match_op op method segs)) [
      | inl missed ↦
          let (found, named, first) =
            first_match-First ops method segs name params (ground arith) in
          (found, named, there missed first)
      | inr (params', matched) ↦ (op, ground arith, here (matched ∙ ground arith))
    ]

-- What a name that `Resolve` gives stands on: the map of the target's host, the segments of the
-- path, and the operation.
pub record Named (lib : Library) (m : OperationMap) (target operation name : String)
    (params : Dict String) : Type 0 where
  pub ops : List Operation
  pub raw : List String
  pub segs : List String
  pub op : Operation
  pub mapped : lookup (host lib target) m.targets ≡ some ops
  pub path : split (cut b'?' (cut b' ' operation).1).0 ≡ some raw
  pub decoded : unescape_all lib raw ≡ some segs
  pub plain : All IsPlain segs
  pub named : op.name ≡ name
  pub first : First (cut b' ' operation).0 segs op params ops

-- If `Resolve` names a call, with parameters, then the name is that of the first operation of the
-- target's map to match the call's method and path, none of whose segments decodes to a dot
-- segment or to several segments.
pub resolve-Named :
    (lib : Library) (m : OperationMap) (target operation name : String) (params : Dict String)
    → resolve lib m target operation ≡ some (name, some params)
    → Named lib m target operation name params
unfolding resolve
resolve-Named lib m target operation name params e =
    elim (Option-cases (lookup (host lib target) m.targets)) [
      | inl unmapped ↦ absurd (ground arith)
      | inr (ops, mapped) ↦ elim (Option-cases (split (cut b'?' (cut b' ' operation).1).0)) [
        | inl bad ↦ absurd (ground arith)
        | inr (raw, path) ↦ elim (Option-cases (unescape_all lib raw)) [
          | inl bad ↦ absurd (ground arith)
          | inr (segs, decoded) ↦
              let (op, named, first) =
                first_match-First ops (cut b' ' operation).0 segs name params (ground arith) in
              record {
                ops = ops;
                raw = raw;
                segs = segs;
                op = op;
                mapped = mapped;
                path = path;
                decoded = decoded;
                plain = unescape_all-IsPlain lib raw segs decoded;
                named = named;
                first = first;
              }
        ]
      ]
    ]
