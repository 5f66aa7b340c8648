-- ===== src/Ref.antt =====
-- internal/ref/ref.go: the expansion of `${NAME}` in a value by the values of the scope, which may
-- refer to names themselves.
pub mod Tokens
pub mod Spec
pub mod Errors
mod Tests
use skret.Base.{
  ℕ, zero, suc, Bool, true, false, not, ◌&&◌, ◌||◌, List, [], ◌∷◌, ◌++◌, Option, none, some, Str,
  codes, ◌==◌, ltb, if◌then◌else◌, is_empty, is_lower, is_upper, is_digit, all_bytes, has_prefix,
  str_eq, length, drop,
}

-- What the scan of `expand` finds: bytes that stay as they are, or the name of a reference.
pub data Piece : Type 0 where
  literal : Str → Piece
  reference : Str → Piece

-- `Error`, with one constructor for each `Kind`, and the end of the model's fuel.
pub data Failure : Type 0 where
  -- the name and the chain
  missing : Str → List Str → Failure
  cycle depth : List Str → Failure
  out_of_fuel : Failure

pub data Resolution : Type 0 where
  resolved : Str → Resolution
  failed : Failure → Resolution

-- `MaxDepth`
abbrev pub max_depth : ℕ
max_depth = 10

abbrev pub is_name_byte : ℕ → Bool
is_name_byte c = c == 95 || is_lower c || is_upper c || is_digit c

-- `isRefName`
unfoldable pub is_ref_name : Str → Bool
unfolding all_bytes
is_ref_name [] = false
is_ref_name (c ∷ s) = not (is_digit c) && all_bytes is_name_byte (c ∷ s)

-- The text up to the first `}` and the text behind it (`strings.IndexByte`).
unfoldable pub cut_brace : Str → Option (Str × Str)
cut_brace [] = none
cut_brace (c ∷ s) =
    let rest : Option (Str × Str) = elim (cut_brace s) [
      | none ↦ none
      | some p ↦ some (c ∷ p.0, p.1)
    ] in
    if c == 125 then some ([], s) else rest

-- `i > 0 && (s[i-1] == '\\' || s[i-1] == '$')`, on the byte before the position.
unfoldable pub is_escaped : Option ℕ → Bool
is_escaped none = false
is_escaped (some c) = c == 92 || c == 36

-- `s[i:end+1]` of a token.
abbrev pub token : Str → Str
token name = 36 ∷ 123 ∷ (name ++ 125 ∷ [])

-- A token whose payload is `name`.
unfoldable pub span : Option ℕ → Str → Piece
unfolding is_escaped is_ref_name
span previous name =
    if is_escaped previous || not (is_ref_name name) then literal (token name) else reference name

-- The scan of `expand`, on the byte before the text; each round takes a byte at least.
unfoldable pub scan : ℕ → Option ℕ → Str → List Piece
unfolding span cut_brace has_prefix
scan zero previous s = []
scan (suc fuel) previous [] = []
scan (suc fuel) previous (c ∷ s) =
    let next = literal (c ∷ []) ∷ scan fuel (some c) s in
    if not (c == 36) || not (has_prefix s (codes "{")) then next else elim (cut_brace (drop 1 s)) [
      | none ↦ literal (c ∷ s) ∷ []
      | some p ↦ span previous p.0 ∷ scan fuel (some 125) p.1
    ]

unfoldable pub pieces : Str → List Piece
pieces s = scan (length s) none s

-- Does the name stand in the chain?
unfoldable pub in_chain : Str → List Str → Bool
in_chain name [] = false
in_chain name (c ∷ chain) = str_eq c name || in_chain name chain

-- `b.WriteString` before the rest of the loop.
abbrev pub prepend : Str → Resolution → Resolution
prepend t (resolved v) = resolved (t ++ v)
prepend t (failed e) = failed e

-- The loop of `expand` over what the scan finds, with the resolution of one name.
unfoldable pub splice : (Str → Resolution) → List Piece → Resolution
splice resolve_name [] = resolved []
splice resolve_name (literal t ∷ ps) = prepend t (splice resolve_name ps)
splice resolve_name (reference name ∷ ps) = elim (resolve_name name) [
  | failed e ↦ failed e
  | resolved v ↦ prepend v (splice resolve_name ps)
]

module _ (lookup : Str → Option Str) where
  -- The look-up of a name and the check for a cycle, before the value is expanded by `inner`.
  unfoldable pub follow : List Str → (Str → Resolution) → Str → Resolution
  unfolding in_chain
  follow chain inner name = elim (lookup name) [
    | none ↦ failed (missing name (chain ++ name ∷ []))
    | some raw ↦ if in_chain name chain then failed (cycle (chain ++ name ∷ [])) else inner raw
  ]

  -- `expand`
  unfoldable pub expand : ℕ → Str → List Str → Resolution
  unfolding pieces splice follow
  expand zero s chain = failed out_of_fuel
  expand (suc fuel) s chain =
      if ltb max_depth (length chain)
      then failed (depth chain)
      else splice (λ name. follow chain (λ raw. expand fuel raw (chain ++ name ∷ [])) name)
          (pieces s)

  -- `Resolve`: a chain grows by one in each call, and none is longer than `max_depth` and one.
  unfoldable pub resolve : Str → Resolution
  unfolding expand
  resolve value = expand (suc (suc max_depth)) value []
