-- ===== src/Setup/Numbering.antt =====
-- Compiled steps that have given shapes, numbered from 0; and the parts of a chain that succeeded.
use flink_sql_go.Prelude.{
  ℕ, suc, ◌+◌, ◌≡◌, refl, sym, ap, ◌∙◌, subst, Bool, true, false, List, [], ◌∷◌, ◌++◌, map, Bytes,
  bytes_eq, length, length-map, arith, Result, ok, err, ◌>>◌, guard,
}
use flink_sql_go.Setup.Plan.{Identifier, Kind, CompiledStep, PlanError}
use flink_sql_go.Setup.Compile.{append_step}

abbrev pub Shape : Type 0
Shape = Kind × Identifier

abbrev pub shape : CompiledStep → ℕ × Shape
shape s = (s.index, (s.kind, s.target))

abbrev pub number : ℕ → List Shape → List (ℕ × Shape)
number i [] = []
number i (x ∷ xs) = (i, x) ∷ number (suc i) xs

pub number-append :
    (i : ℕ) (xs : List Shape) (x : Shape)
    → number i (xs ++ x ∷ []) ≡ number i xs ++ (i + length xs, x) ∷ []
number-append i [] x = ap (λ n. (n, x) ∷ []) (omega arith)
number-append i (y ∷ xs) x =
    ap (λ ys. (i, y) ∷ ys)
      (number-append (suc i) xs x ∙ ap (λ n. number (suc i) xs ++ (n, x) ∷ []) (omega arith))

pub length-number : (i : ℕ) (xs : List Shape) → length (number i xs) ≡ length xs
length-number i [] = refl
length-number i (x ∷ xs) = ap suc (length-number (suc i) xs)

pub map-append :
    (f : CompiledStep → ℕ × Shape) (xs ys : List CompiledStep)
    → map f (xs ++ ys) ≡ map f xs ++ map f ys
map-append f [] ys = refl
map-append f (x ∷ xs) ys = ap (λ zs. f x ∷ zs) (map-append f xs ys)

pub append-append : {A : Type 0} (xs ys zs : List A) → (xs ++ ys) ++ zs ≡ xs ++ (ys ++ zs)
append-append [] ys zs = refl
append-append (x ∷ xs) ys zs = ap (λ ws. x ∷ ws) (append-append xs ys zs)

pub append_nil : {A : Type 0} (xs : List A) → xs ++ [] ≡ xs
append_nil [] = refl
append_nil (x ∷ xs) = ap (λ ws. x ∷ ws) (append_nil xs)

-- The steps have these shapes, numbered from 0.
unfoldable pub IsBuilt : List CompiledStep → List Shape → Type 0
IsBuilt steps xs = map shape steps ≡ number 0 xs

pub zero_add : (n : ℕ) → n ≡ 0 + n
zero_add n = omega arith

pub append_step-IsBuilt :
    (steps : List CompiledStep) (xs : List Shape) (k : Kind) (t : Identifier) (s : Bytes) (v : Bool)
    (values : List Bytes) (all : Bool)
    → IsBuilt steps xs
    → IsBuilt (append_step steps k t s v values all) (xs ++ (k, t) ∷ [])
unfolding append_step IsBuilt
append_step-IsBuilt steps xs k t s v values all b =
    map-append shape steps _
    ∙ ap (λ ys. ys ++ (length steps, (k, t)) ∷ []) b
    ∙ ap (λ n. number 0 xs ++ (n, (k, t)) ∷ [])
        (sym (length-map steps shape) ∙ ap length b ∙ length-number 0 xs)
    ∙ ap (λ n. number 0 xs ++ (n, (k, t)) ∷ []) (zero_add (length xs))
    ∙ sym (number-append 0 xs (k, t))

pub guarded :
    {A : Type 0} (b : Bool) (x : PlanError) (m : Result PlanError A) {a : A}
    → (guard b x >> m) ≡ ok a
    → (b ≡ true) × (m ≡ ok a)
guarded true x m e = (refl, e)
guarded false x m e = cc

pub after :
    {A : Type 0} (r : Result PlanError (Unit {0})) (m : Result PlanError A) {a : A}
    → (r >> m) ≡ ok a
    → m ≡ ok a
after (ok u) m e = e
after (err x) m e = cc

pub ok_injective :
    (x y : List CompiledStep) → ◌≡◌ {A = Result PlanError (List CompiledStep)} (ok x) (ok y) → x ≡ y
ok_injective x y e = cc

pub appended :
    (steps out : List CompiledStep) (xs : List Shape) (k : Kind) (t : Identifier) (s : Bytes)
    (v : Bool) (values : List Bytes) (all : Bool)
    → IsBuilt steps xs
    → ◌≡◌ {A = Result PlanError (List CompiledStep)}
        (ok (append_step steps k t s v values all))
        (ok out)
    → IsBuilt out (xs ++ (k, t) ∷ [])
appended steps out xs k t s v values all b e =
    subst (λ ys. IsBuilt ys (xs ++ (k, t) ∷ [])) (ok_injective _ _ e)
      (append_step-IsBuilt steps xs k t s v values all b)
