-- ===== src/Adh/Error.antt =====
-- internal/adh/error.go: coded errors. A Go error here is a chain: `*adh.Error` values with or
-- without a nested cause, texts put in front by `fmt.Errorf("text: %w", err)`, and any other error.
use Prim.Native.String.{String}
use agentic_dev_harness.Shared.{
  ◌≡◌, refl, ap, Bool, true, false, List, [], ◌∷◌, ◌==◌, if◌then◌else◌, concat, arith, Option, none,
  some, All,
}

-- The five codes, the empty one of a wrapping error, and any other text.
pub data Code : Type 0 where
  unset conflict internal invalid not_found unauthorized : Code
  other : String → Code

-- `leaf` is an `*adh.Error` whose `Err` is nil, `nested` one with a cause; their fields are the
-- code, the message and the operation.
pub data Error : Type 0 where
  leaf : Code → String → String → Error
  nested : Code → String → String → Error → Error
  context : String → Error → Error
  foreign : String → Error

-- The result of a Go function that returns a value and an error.
pub data Result {ℓ} (A : Type ℓ) : Type ℓ where
  ok : A → Result A
  err : Error → Result A

infixl 5 ◌>>=◌
abbrev pub ◌>>=◌ {ℓ κ} : {A : Type ℓ} {B : Type κ} → Result A → (A → Result B) → Result B
ok a >>= f = f a
err e >>= f = err e

value_or {ℓ} : {A : Type ℓ} → A → Result A → A
value_or d (ok a) = a
value_or d (err e) = d

pub ok_injective {ℓ} : {A : Type ℓ} {a b : A} → ok a ≡ ok b → a ≡ b
unfolding value_or
ok_injective {a} h = ap (value_or a) h

-- A chain that succeeds has a first part that does.
pub ok_inv {ℓ κ} :
    {A : Type ℓ} {B : Type κ} (r : Result A) (f : A → Result B) (b : B)
    → (r >>= f) ≡ ok b
    → (a : A) × (r ≡ ok a) × (f a ≡ ok b)
ok_inv (ok a) f b h = (a, refl, h)
ok_inv (err e) f b h = cc

-- `&Error{Code: code, Message: message}`
abbrev pub coded : Code → String → Error
coded code message = leaf code message ""

-- `&Error{Op: op, Err: err}`
abbrev pub wrap : String → Error → Error
wrap op e = nested unset "" op e

code_text : Code → String
code_text unset = ""
code_text conflict = "conflict"
code_text internal = "internal"
code_text invalid = "invalid"
code_text not_found = "not_found"
code_text unauthorized = "unauthorized"
code_text (other s) = s

-- The separator that `Error` writes between the operation and what follows it.
op_prefix : String → String
op_prefix op = if op == "" then "" else concat (op ∷ ": " ∷ [])

-- `(*Error).Error`, and the texts of the other errors in a chain.
unfoldable pub error_text : Error → String
unfolding code_text op_prefix
error_text (leaf code message op) =
    if message == ""
    then (if code_text code == "" then op else concat (op_prefix op ∷ code_text code ∷ []))
    else concat (op_prefix op ∷ message ∷ [])
error_text (nested code message op cause) = concat (op_prefix op ∷ error_text cause ∷ [])
error_text (context text cause) = concat (text ∷ ": " ∷ error_text cause ∷ [])
error_text (foreign text) = text

abbrev code_or : Code → Code → Code
code_or unset c = c
code_or code c = code

-- `ErrorCode` of an error that is not nil: the first code set on the chain, and `internal` if none.
unfoldable pub error_code : Error → Code
error_code (leaf code message op) = code_or code internal
error_code (nested code message op cause) = code_or code (error_code cause)
error_code (context text cause) = error_code cause
error_code (foreign text) = internal

-- `ErrorMessage` of an error that is not nil: the first message set on the chain.
unfoldable pub error_message : Error → String
error_message (leaf code message op) =
    if message == "" then "an internal error occurred" else message
error_message (nested code message op cause) =
    if message == "" then error_message cause else message
error_message (context text cause) = error_message cause
error_message (foreign text) = "an internal error occurred"

-- A Go `switch` whose cases each return an error: the first case whose test holds decides.
unfoldable pub switch : List (Bool × Error) → Option Error
switch [] = none
switch ((test, e) ∷ cases) = let rest = switch cases in if test then some e else rest

-- Where the switch falls through, every test failed.
pub switch-none : (cases : List (Bool × Error)) → switch cases ≡ none → All (λ c. c.0 ≡ false) cases
unfolding switch
switch-none [] h = tt
switch-none ((false, e) ∷ cases) h = (refl, switch-none cases h)
switch-none ((true, e) ∷ cases) h = absurd (ground (arith, h))

-- Wraps of a given error, by any operations and texts.
pub data Wraps (e : Error) : Error → Type 0 where
  here : Wraps e e
  by_op : {f : Error} (op : String) → Wraps e f → Wraps e (wrap op f)
  by_text : {f : Error} (text : String) → Wraps e f → Wraps e (context text f)

-- However often an error is wrapped, by operations and by texts, its code and its message for the
-- user stay those of the error inside.
pub Wraps-keeps :
    {e f : Error} → Wraps e f → (error_code f ≡ error_code e) × (error_message f ≡ error_message e)
unfolding error_code error_message
Wraps-keeps here = (refl, refl)
Wraps-keeps (by_op op w) = Wraps-keeps w
Wraps-keeps (by_text text w) = Wraps-keeps w
